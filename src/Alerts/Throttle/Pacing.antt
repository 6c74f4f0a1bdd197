-- ===== src/Alerts/Throttle/Pacing.antt =====
-- The pages of a run, described by its log alone.
use systematic_trading_valid.Common.{
  Bool, Bool-cases, List, Option, [], ap, arith, beq_iff, if◌then◌else◌, inl, inr, is_some, leb,
  nat_eq, none, pair_eq, refl, some, suc, sym, true, ℕ, ◌+◌, ◌==◌, ◌∙◌, ◌∷◌, ◌≡◌,
}
use systematic_trading_valid.Common.Text.{text_eq}
use systematic_trading_valid.Common.Dict.{
  Dict, erase, has_key, insert, lookup, lookup-erase, lookup-insert,
}
use systematic_trading_valid.Alerts.Throttle.{
  Entry, Key, Message, forwarded, notify, notify_on, recovered, required_wait, resolve,
}

pub data Event : Type 0 where
  notified : ℕ → Key → Event
  resolved : Key → Event

-- What was sent, the newest first.
pub data Sent : Type 0 where
  page : ℕ → Key → Sent
  recovery : Key → Sent

abbrev pub sends_of : Option Entry → ℕ
sends_of none = 0
sends_of (some st) = st.sends

-- The pages of a condition since its last recovery: their number and the time of the newest.
abbrev pub pages : Key → List Sent → Option Entry
pages k [] = none
pages k (page t j ∷ log) =
    let rest = pages k log in
    if j == k then some (record { last_sent = t; sends = suc (sends_of rest) }) else rest
pages k (recovery j ∷ log) = let rest = pages k log in if j == k then none else rest

-- A page is due at once, or when the wait since the last page is over.
abbrev pub is_due : ℕ → Option Entry → Bool
is_due now none = true
is_due now (some st) = leb (st.last_sent + required_wait st.sends) now

-- Every page was due, and every recovery ended a condition that had paged.
abbrev pub IsPaced : List Sent → Type 0
IsPaced [] = Unit
IsPaced (page t k ∷ log) = (is_due t (pages k log) ≡ true) × IsPaced log
IsPaced (recovery k ∷ log) = (is_some (pages k log) ≡ true) × IsPaced log

-- The throttle's table and the log of what it sent.
pub record Trace : Type 0 where
  pub state : Dict Key Entry
  pub log : List Sent

abbrev pub logged : ℕ → Option Message → List Sent → List Sent
logged now none log = log
logged now (some (forwarded k)) log = page now k ∷ log
logged now (some (recovered k)) log = recovery k ∷ log

unfoldable pub step : Trace → Event → Trace
step s (notified now key) =
    let r = notify s.state now key in record { state = r.0; log = logged now r.1 s.log }
step s (resolved key) =
    let r = resolve s.state key in record { state = r.0; log = logged 0 r.1 s.log }

unfoldable pub run : Trace → List Event → Trace
run s [] = s
run s (e ∷ es) = run (step s e) es

abbrev pub start : Trace
start = record { state = []; log = [] }

-- The table is what the log says of every condition, and the log is paced.
pub record Follows (s : Trace) : Type 0 where
  pub agrees : (k : Key) → lookup k s.state ≡ pages k s.log
  pub paced : IsPaced s.log

module _ (d : Dict Key Entry) (log : List Sent) (key : Key)
    (h : Follows (record { state = d; log = log })) where
  page-Follows :
      (now n : ℕ)
      → is_due now (pages key log) ≡ true
      → n ≡ sends_of (pages key log)
      → Follows (record {
        state = insert key (record { last_sent = now; sends = suc n }) d;
        log = page now key ∷ log;
      })
  page-Follows now n due e = record {
    agrees = λ k.
        lookup-insert key k (record { last_sent = now; sends = suc n }) d
        ∙ elim (Bool-cases (key == k)) [
          | inl same ↦ simp same (
              ap (λ m. some (record { last_sent = now; sends = suc m })) e
              ∙ ap (λ j. some (record { last_sent = now; sends = suc (sends_of (pages j log)) }))
                  ((beq_iff key k).0 same))
          | inr other ↦ simp other (h.agrees k)
        ];
    paced = (due, h.paced);
  }

  recovery-Follows :
      has_key key d ≡ true → Follows (record { state = erase key d; log = recovery key ∷ log })
  recovery-Follows known = record {
    agrees = λ k. lookup-erase key k d ∙ elim (Bool-cases (key == k)) [
      | inl same ↦ simp same refl
      | inr other ↦ simp other (h.agrees k)
    ];
    paced = (rw (sym (h.agrees key)) known, h.paced);
  }

  notify_on-Follows :
      (o : Option Entry) (now : ℕ)
      → o ≡ pages key log
      → (let r = notify_on o d now key in
          Follows (record { state = r.0; log = logged now r.1 log }))
  notify_on-Follows none now e = page-Follows now 0 (rw (sym e) refl) (rw (sym e) refl)
  notify_on-Follows (some st) now e =
      elim (Bool-cases (leb (st.last_sent + required_wait st.sends) now)) [
        | inl due ↦ simp due (page-Follows now st.sends (rw (sym e) due) (rw (sym e) refl))
        | inr early ↦ simp early h
      ]

  resolve-Follows :
      Follows (record { state = (resolve d key).0; log = logged 0 (resolve d key).1 log })
  unfolding resolve
  resolve-Follows = elim (Bool-cases (has_key key d)) [
    | inl known ↦ simp known (recovery-Follows known)
    | inr unknown ↦ simp unknown h
  ]

step-Follows : (s : Trace) (e : Event) → Follows s → Follows (step s e)
unfolding step notify
step-Follows s (notified now key) h =
    notify_on-Follows s.state s.log key h (lookup key s.state) now (h.agrees key)
step-Follows s (resolved key) h = resolve-Follows s.state s.log key h

run-Follows_from : (s : Trace) (es : List Event) → Follows s → Follows (run s es)
unfolding run
run-Follows_from s [] h = h
run-Follows_from s (e ∷ es) h = run-Follows_from (step s e) es (step-Follows s e h)

-- Over any notifications and resolutions, at any times: a condition's entry in the table is the number
-- of its pages since its last recovery and the time of the newest, as the log of what was sent tells;
-- every page is the first of its condition since a recovery or comes at least the scheduled wait after
-- the one before; and every recovery message follows a page of its condition, with no other recovery
-- of it in between.
pub run-Follows : (es : List Event) → Follows (run start es)
unfolding lookup
run-Follows es = run-Follows_from start es (record { agrees = λ k. refl; paced = tt })

pages_on :
    (d : Dict Key Entry) (now : ℕ) (key : Key) (o p : Option Entry)
    → o ≡ p
    → is_some (notify_on o d now key).1 ≡ is_due now p
pages_on d now key none p e = rw (sym e) refl
pages_on d now key (some st) p e = rw (sym e) (ground arith)

-- After any notifications and resolutions, a notification pages exactly if it is due by the log of what
-- was sent: at once, or when the scheduled wait since the last page of its condition is over.
pub pages_when_due :
    (es : List Event) (now : ℕ) (key : Key)
    → is_some (notify (run start es).state now key).1 ≡ is_due now (pages key (run start es).log)
unfolding notify
pages_when_due es now key = pages_on (run start es).state now key _ _ ((run-Follows es).agrees key)
