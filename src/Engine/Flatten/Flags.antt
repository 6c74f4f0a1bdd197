-- ===== src/Engine/Flatten/Flags.antt =====
-- src/engine/flatten_protocol.py: the flags under overlap. While a flatten awaits the broker, other calls of the two methods arrive.
use systematic_trading_valid.Common.{
  Bool, Bool-cases, List, Option, [], ap, arith, beq_iff, contains, false, if◌then◌else◌, inl, inr,
  keep_if, nat_eq, none, not, pair_eq, refl, some, suc, sym, true, zero, ℕ, ◌&&◌, ◌+◌, ◌==◌, ◌||◌,
  ◌∙◌, ◌∷◌, ◌≡◌,
}
use systematic_trading_valid.Common.Text.{Text, text_eq}
use systematic_trading_valid.Engine.Flatten.{Protocol, World}
use systematic_trading_valid.Engine.Flatten.Portfolio.{enter_portfolio, leave_portfolio}
use systematic_trading_valid.Engine.Flatten.Leg.{enter_leg, leave_leg}

-- A body that has entered and not left
pub data Task : Type 0 where
  portfolio_task : Task
  leg_task : Text → Task

pub record Running (S : Type 0) : Type 0 where
  pub protocol : Protocol S
  pub bodies : List Task

-- A call of either method, which is skipped or enters; progress of the bodies that are running; and the end of
-- one of them, whether it returns or raises.
pub data Event (S : Type 0) : Type 0 where
  call_portfolio : Event S
  call_leg : Text → Event S
  progress : World S → Event S
  finish : ℕ → Event S

abbrev pub entered : {S : Type 0} → Running S → Task → Option (Protocol S) → Running S
entered s t none = s
entered s t (some q) = record { protocol = q; bodies = t ∷ s.bodies }

abbrev pub task : ℕ → List Task → Option Task
task n [] = none
task zero (t ∷ ts) = some t
task (suc n) (t ∷ ts) = task n ts

abbrev pub others : ℕ → List Task → List Task
others n [] = []
others zero (t ∷ ts) = ts
others (suc n) (t ∷ ts) = t ∷ others n ts

abbrev pub finished : {S : Type 0} → Running S → List Task → Option Task → Running S
finished s rest none = s
finished s rest (some portfolio_task) = record {
  protocol = leave_portfolio s.protocol;
  bodies = rest;
}
finished s rest (some (leg_task key)) = record {
  protocol = leave_leg key s.protocol;
  bodies = rest;
}

unfoldable pub happen : {S : Type 0} → Running S → Event S → Running S
happen s call_portfolio = entered s portfolio_task (enter_portfolio s.protocol)
happen s (call_leg key) = entered s (leg_task key) (enter_leg key s.protocol)
happen s (progress w) = record s { protocol = record s.protocol { world = w } }
happen s (finish n) = finished s (others n s.bodies) (task n s.bodies)

unfoldable pub run_events : {S : Type 0} → Running S → List (Event S) → Running S
run_events s [] = s
run_events s (e ∷ es) = run_events (happen s e) es

-- How many bodies of the portfolio, and of a leg, are running
abbrev pub portfolios : List Task → ℕ
portfolios [] = 0
portfolios (portfolio_task ∷ ts) = suc (portfolios ts)
portfolios (leg_task key ∷ ts) = portfolios ts

abbrev pub legs : Text → List Task → ℕ
legs k [] = 0
legs k (portfolio_task ∷ ts) = legs k ts
legs k (leg_task key ∷ ts) = (if key == k then 1 else 0) + legs k ts

abbrev pub once_if : Bool → ℕ
once_if b = if b then 1 else 0

-- One body for a flag that is set, and none for one that is not
pub record AreExclusive {S : Type 0} (s : Running S) : Type 0 where
  pub portfolio : portfolios s.bodies ≡ once_if s.protocol.portfolio_flattening
  pub leg : (k : Text) → legs k s.bodies ≡ once_if (contains k s.protocol.leg_flattening)

contains-keep :
    (k j : Text) (ks : List Text)
    → contains j (keep_if (λ i. not (i == k)) ks) ≡ (not (k == j) && contains j ks)
contains-keep k j [] = ground arith
contains-keep k j (i ∷ ks) =
    ground (arith, contains-keep k j ks, beq_iff i k, beq_iff i j, beq_iff k j)

portfolio-left :
    (n : ℕ) (ts : List Task)
    → task n ts ≡ some portfolio_task
    → (portfolios ts ≡ suc (portfolios (others n ts)))
      × ((k : Text) → legs k ts ≡ legs k (others n ts))
portfolio-left n [] e = cc
portfolio-left zero (portfolio_task ∷ ts) e = (refl, λ k. refl)
portfolio-left zero (leg_task key ∷ ts) e = cc
portfolio-left (suc n) (portfolio_task ∷ ts) e = let (p, l) = portfolio-left n ts e in (ap suc p, l)
portfolio-left (suc n) (leg_task key ∷ ts) e =
    let (p, l) = portfolio-left n ts e in (p, λ k. ap (λ m. once_if (key == k) + m) (l k))

leg-left :
    (key : Text) (n : ℕ) (ts : List Task)
    → task n ts ≡ some (leg_task key)
    → (portfolios ts ≡ portfolios (others n ts))
      × ((k : Text) → legs k ts ≡ once_if (key == k) + legs k (others n ts))
leg-left key n [] e = cc
leg-left key zero (portfolio_task ∷ ts) e = cc
leg-left key zero (leg_task j ∷ ts) e = (refl, λ k. same j e k)
  where
    same :
        (j : Text)
        → some (leg_task j) ≡ some (leg_task key)
        → (k : Text) → once_if (j == k) + legs k ts ≡ once_if (key == k) + legs k ts
    same j e k = cc
leg-left key (suc n) (portfolio_task ∷ ts) e = let (p, l) = leg-left key n ts e in (ap suc p, l)
leg-left key (suc n) (leg_task j ∷ ts) e =
    let (p, l) = leg-left key n ts e in
    (p, λ k. ap (λ m. once_if (j == k) + m) (l k) ∙ swap (once_if (j == k)) (once_if (key == k)) _)
  where
    swap : (a b c : ℕ) → a + (b + c) ≡ b + (a + c)
    swap a b c = omega arith

last_one : (b : Bool) {m : ℕ} → suc m ≡ once_if b → m ≡ 0
last_one true h = omega (arith, h)
last_one false h = omega (arith, h)

removed :
    (key k : Text) (ks : List Text) (m : ℕ)
    → once_if (key == k) + m ≡ once_if (contains k ks)
    → m ≡ once_if (contains k (keep_if (λ j. not (j == key)) ks))
removed key k ks m h = ground (arith, contains-keep key k ks, h)

module _ {S : Type 0} (s : Running S) (i : AreExclusive s) where
  call_portfolio-AreExclusive : AreExclusive (entered s portfolio_task (enter_portfolio s.protocol))
  unfolding enter_portfolio
  call_portfolio-AreExclusive = elim (Bool-cases s.protocol.portfolio_flattening) [
    | inl e ↦ simp e i
    | inr e ↦ simp e (record { portfolio = ap suc (i.portfolio ∙ ap once_if e); leg = i.leg })
  ]

  call_leg-AreExclusive :
      (key : Text) → AreExclusive (entered s (leg_task key) (enter_leg key s.protocol))
  unfolding enter_leg
  call_leg-AreExclusive key = elim (Bool-cases (contains key s.protocol.leg_flattening)) [
    | inl e ↦ simp e i
    | inr e ↦ simp e (record { portfolio = i.portfolio; leg = λ k. added k e (i.leg k) })
  ]
    where
      added :
          (k : Text)
          → contains key s.protocol.leg_flattening ≡ false
          → legs k s.bodies ≡ once_if (contains k s.protocol.leg_flattening)
          → once_if (key == k) + legs k s.bodies
            ≡ once_if ((key == k) || contains k s.protocol.leg_flattening)
      added k e h = elim (Bool-cases (key == k)) [
        | inl f ↦
            let absent =
              ap (λ j. contains j s.protocol.leg_flattening) (sym ((beq_iff key k).0 f)) in
            ground (arith, f, h, absent, e)
        | inr f ↦ ground (arith, f, h)
      ]

  finish-AreExclusive : (n : ℕ) → AreExclusive (finished s (others n s.bodies) (task n s.bodies))
  finish-AreExclusive n = ended (task n s.bodies) refl
    where
      ended :
          (o : Option Task) → task n s.bodies ≡ o → AreExclusive (finished s (others n s.bodies) o)
      ended none e = i
      ended (some portfolio_task) e =
          let (p, l) = portfolio-left n s.bodies e in
          unfold leave_portfolio in
          record {
            portfolio = last_one s.protocol.portfolio_flattening (sym p ∙ i.portfolio);
            leg = λ k. sym (l k) ∙ i.leg k;
          }
      ended (some (leg_task key)) e =
          let (p, l) = leg-left key n s.bodies e in
          unfold leave_leg in
          record {
            portfolio = sym p ∙ i.portfolio;
            leg = λ k. removed key k s.protocol.leg_flattening _ (sym (l k) ∙ i.leg k);
          }

happen-AreExclusive :
    {S : Type 0} (s : Running S) (e : Event S) → AreExclusive s → AreExclusive (happen s e)
unfolding happen
happen-AreExclusive s call_portfolio i = call_portfolio-AreExclusive s i
happen-AreExclusive s (call_leg key) i = call_leg-AreExclusive s i key
happen-AreExclusive s (progress w) i = record { portfolio = i.portfolio; leg = i.leg }
happen-AreExclusive s (finish n) i = finish-AreExclusive s i n

run-AreExclusive :
    {S : Type 0} (s : Running S) (es : List (Event S))
    → AreExclusive s
    → AreExclusive (run_events s es)
unfolding run_events
run-AreExclusive s [] i = i
run-AreExclusive s (e ∷ es) i = run-AreExclusive (happen s e) es (happen-AreExclusive s e i)

-- Of a protocol that starts with no flag set, after any calls, in whatever order the bodies that they start go on
-- and end: exactly one body of the portfolio's flatten is running if its flag is set, and none if it is
-- not; and of each leg exactly one if its key is among the flags, and none if it is not. So no flatten
-- runs twice at a time, and none that ended, raised or not, keeps the next one out.
pub one_body_each :
    {S : Type 0} (w : World S) (es : List (Event S))
    → AreExclusive (
        run_events
          (record {
            protocol = record { portfolio_flattening = false; leg_flattening = []; world = w };
            bodies = [];
          })
          es)
one_body_each w es = run-AreExclusive _ es (record { portfolio = refl; leg = λ k. refl })
