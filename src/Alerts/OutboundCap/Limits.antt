-- ===== src/Alerts/OutboundCap/Limits.antt =====
-- The rows that count against the cap, whatever calls overlap.
use systematic_trading_valid.Common.{
  Bool, Bool-cases, List, Option, [], arith, false, inl, inr, leb, length, nat_eq, none, pair_eq,
  refl, some, sym, true, ℕ, ◌+◌, ◌-◌, ◌∙◌, ◌∷◌, ◌≡◌, ◌≤◌,
}
use systematic_trading_valid.Common.Text.{Text, text_eq}
use systematic_trading_valid.Alerts.OutboundCap.{
  Cap, Lane, Send, Verdict, ago, allowed, count_since, day, hour, in_backoff, insert_row,
  is_priority, judge, judge_priority, judge_routine, lane_eq, note_429, priority, routine, row,
  row_for,
}
use systematic_trading_valid.Alerts.OutboundCap.Overlap.{
  InOrder, Overlaps, Shared, Step, clock_after, item, land, last_clock, look, lose, refused,
  run_steps, set_out, step, without,
}
use systematic_trading_valid.Alerts.OutboundCap.Loads.{
  Holds, Holds-later, Holds-new, Holds-other, count-without, load, none_left,
}

-- The limits are those of the start, and each holds.
record IsKept (limits : Cap) (k t : ℕ) (s : Shared) : Type 0 where
  priority_limit : s.cap.priority_per_hour ≡ limits.priority_per_hour
  hourly_limit : s.cap.routine_per_hour ≡ limits.routine_per_hour
  daily_limit : s.cap.routine_per_day ≡ limits.routine_per_day
  hourly_priority : Holds hour priority limits.priority_per_hour k t s
  hourly_routine : Holds hour routine limits.routine_per_hour k t s
  daily_routine : Holds day routine limits.routine_per_day k t s

IsKept-later :
    (limits : Cap) (k t u : ℕ) (s : Shared) → t ≤ u → IsKept limits k t s → IsKept limits k u s
IsKept-later limits k t u s h i = record {
  priority_limit = i.priority_limit;
  hourly_limit = i.hourly_limit;
  daily_limit = i.daily_limit;
  hourly_priority = Holds-later hour priority _ k t u s h i.hourly_priority;
  hourly_routine = Holds-later hour routine _ k t u s h i.hourly_routine;
  daily_routine = Holds-later day routine _ k t u s h i.daily_routine;
}

module _ (limits : Cap) (k now : ℕ) (kind : Option Text) (s : Shared)
    (i : IsKept limits k now s) where
  abbrev Sent : Verdict → Type 0
  Sent v =
      length (set_out (row_for now kind v) s).in_flight ≤ k
      → IsKept limits k now (set_out (row_for now kind v) s)

  priority-IsKept :
      leb s.cap.priority_per_hour (count_since (ago now hour) priority s.cap.sends) ≡ false
      → Sent (allowed priority)
  priority-IsKept h o = record {
    priority_limit = i.priority_limit;
    hourly_limit = i.hourly_limit;
    daily_limit = i.daily_limit;
    hourly_priority =
        Holds-new hour priority _ k now s (row now kind priority) (rw (sym i.priority_limit) h) o;
    hourly_routine =
        Holds-other hour routine _ k now s (row now kind priority) refl i.hourly_routine;
    daily_routine = Holds-other day routine _ k now s (row now kind priority) refl i.daily_routine;
  }

  routine-IsKept :
      leb s.cap.routine_per_hour (count_since (ago now hour) routine s.cap.sends) ≡ false
      → leb s.cap.routine_per_day (count_since (ago now day) routine s.cap.sends) ≡ false
      → Sent (allowed routine)
  routine-IsKept h d o = record {
    priority_limit = i.priority_limit;
    hourly_limit = i.hourly_limit;
    daily_limit = i.daily_limit;
    hourly_priority =
        Holds-other hour priority _ k now s (row now kind routine) refl i.hourly_priority;
    hourly_routine =
        Holds-new hour routine _ k now s (row now kind routine) (rw (sym i.hourly_limit) h) o;
    daily_routine =
        Holds-new day routine _ k now s (row now kind routine) (rw (sym i.daily_limit) d) o;
  }

  judge_priority-IsKept : Sent (judge_priority s.cap now)
  unfolding judge_priority
  judge_priority-IsKept =
      elim (Bool-cases
        (leb s.cap.priority_per_hour (count_since (ago now hour) priority s.cap.sends))) [
          | inl e ↦ simp e (λ o. i)
          | inr e ↦ simp e (priority-IsKept e)
        ]

  judge_routine-IsKept : Sent (judge_routine s.cap now)
  unfolding judge_routine
  judge_routine-IsKept = elim (Bool-cases (in_backoff s.cap now)) [
    | inl e ↦ simp e (λ o. i)
    | inr e ↦
        elim (Bool-cases
          (leb s.cap.routine_per_hour (count_since (ago now hour) routine s.cap.sends))) [
            | inl h ↦ simp (e, h) (λ o. i)
            | inr h ↦
                elim (Bool-cases
                  (leb s.cap.routine_per_day (count_since (ago now day) routine s.cap.sends))) [
                    | inl d ↦ simp (e, h, d) (λ o. i)
                    | inr d ↦ simp (e, h, d) (routine-IsKept h d)
                  ]
          ]
  ]

  judge-IsKept :
      (severity : Option Text) (fault : Bool) → Sent (judge s.cap now kind severity fault)
  unfolding judge
  judge-IsKept severity true = λ o. i
  judge-IsKept severity false = elim (Bool-cases (is_priority kind severity)) [
    | inl e ↦ simp e judge_priority-IsKept
    | inr e ↦ simp e judge_routine-IsKept
  ]

module _ (limits : Cap) (k t n : ℕ) (s : Shared) (i : IsKept limits k t s) where
  lose-IsKept : IsKept limits k t (record s { in_flight = without n s.in_flight })
  lose-IsKept = record {
    priority_limit = i.priority_limit;
    hourly_limit = i.hourly_limit;
    daily_limit = i.daily_limit;
    hourly_priority = λ u g. less (ago u hour) priority _ (i.hourly_priority u g);
    hourly_routine = λ u g. less (ago u hour) routine _ (i.hourly_routine u g);
    daily_routine = λ u g. less (ago u day) routine _ (i.daily_routine u g);
  }
    where
      less :
          (since : ℕ) (lane : Lane) (b : ℕ)
          → load since lane s ≤ b
          → load since lane (record s { in_flight = without n s.in_flight }) ≤ b
      less since lane b h = omega (arith, h, count-without since lane n s.in_flight)

  land-IsKept :
      IsKept limits k t
        (record { cap = insert_row (item n s.in_flight) s.cap; in_flight = without n s.in_flight })
  land-IsKept =
      let (p, h, d) = same_limits (item n s.in_flight) in
      record {
        priority_limit = p ∙ i.priority_limit;
        hourly_limit = h ∙ i.hourly_limit;
        daily_limit = d ∙ i.daily_limit;
        hourly_priority = λ u g. moved (ago u hour) priority _ (i.hourly_priority u g);
        hourly_routine = λ u g. moved (ago u hour) routine _ (i.hourly_routine u g);
        daily_routine = λ u g. moved (ago u day) routine _ (i.daily_routine u g);
      }
    where
      same_limits :
          (o : Option Send)
          → ((insert_row o s.cap).priority_per_hour ≡ s.cap.priority_per_hour)
            × ((insert_row o s.cap).routine_per_hour ≡ s.cap.routine_per_hour)
            × ((insert_row o s.cap).routine_per_day ≡ s.cap.routine_per_day)
      same_limits none = (refl, refl, refl)
      same_limits (some x) = (refl, refl, refl)

      moved :
          (since : ℕ) (lane : Lane) (b : ℕ)
          → load since lane s ≤ b
          → count_since since lane (insert_row (item n s.in_flight) s.cap).sends
              + count_since since lane (without n s.in_flight)
            ≤ b
      moved since lane b h = omega (arith, h, none_left since lane s.cap n s.in_flight)

note-IsKept :
    (limits : Cap) (k t now : ℕ) (fault : Bool) (s : Shared)
    → IsKept limits k t s
    → IsKept limits k t (record s { cap = note_429 s.cap now fault })
unfolding note_429
note-IsKept limits k t now true s i = i
note-IsKept limits k t now false s i = record {
  priority_limit = i.priority_limit;
  hourly_limit = i.hourly_limit;
  daily_limit = i.daily_limit;
  hourly_priority = i.hourly_priority;
  hourly_routine = i.hourly_routine;
  daily_routine = i.daily_routine;
}

step-IsKept :
    (limits : Cap) (k t : ℕ) (s : Shared) (a : Step)
    → t ≤ clock_after t a
    → length (step s a).in_flight ≤ k
    → IsKept limits k t s
    → IsKept limits k (clock_after t a) (step s a)
unfolding step
step-IsKept limits k t s (look now kind severity fault) h o i =
    judge-IsKept limits k now kind s (IsKept-later limits k t now s h i) severity fault o
step-IsKept limits k t s (land n) h o i = land-IsKept limits k t n s i
step-IsKept limits k t s (lose n) h o i = lose-IsKept limits k t n s i
step-IsKept limits k t s (refused now fault) h o i =
    note-IsKept limits k now now fault s (IsKept-later limits k t now s h i)

run-IsKept :
    (limits : Cap) (k t : ℕ) (s : Shared) (as_ : List Step)
    → InOrder t as_
    → Overlaps k s as_
    → IsKept limits k t s
    → IsKept limits k (last_clock t as_) (run_steps s as_)
unfolding run_steps
run-IsKept limits k t s [] o p i = i
run-IsKept limits k t s (a ∷ as_) (h, o) (g, p) i =
    run-IsKept limits k (clock_after t a) (step s a) as_ o p (step-IsKept limits k t s a h g i)

-- At an instant, the three windows that end there hold no more sends than the limits allow, but for `extra`.
pub record IsCapped (limits : Cap) (extra : ℕ) (sends : List Send) (now : ℕ) : Type 0 where
  pub hourly_priority : count_since (ago now hour) priority sends ≤ limits.priority_per_hour + extra
  pub hourly_routine : count_since (ago now hour) routine sends ≤ limits.routine_per_hour + extra
  pub daily_routine : count_since (ago now day) routine sends ≤ limits.routine_per_day + extra

-- From an empty table and under any limits, after any statements of calls whose clock never goes back and of
-- which never more than k are between their reads and their insert, at every instant from the last
-- reading of the clock on: the sends recorded in the last hour are at most k - 1 more than the hourly
-- limit of their lane, and those of the routine lane in the last day at most k - 1 more than its daily
-- limit. For calls that do not overlap, k is 1 and the limits themselves hold. (A call that meets a
-- database fault lets its push out and records nothing.)
pub run-IsCapped :
    (limits : Cap) (k t : ℕ) (as_ : List Step) (now : ℕ)
    → limits.sends ≡ []
    → InOrder t as_
    → Overlaps k (record { cap = limits; in_flight = [] }) as_
    → last_clock t as_ ≤ now
    → IsCapped limits
        (k - 1)
        (run_steps (record { cap = limits; in_flight = [] }) as_).cap.sends
        now
run-IsCapped limits k t as_ now e o p h =
    let empty : IsKept limits k t (record { cap = limits; in_flight = [] }) = record {
      priority_limit = refl;
      hourly_limit = refl;
      daily_limit = refl;
      hourly_priority = λ u g. rw e (omega arith);
      hourly_routine = λ u g. rw e (omega arith);
      daily_routine = λ u g. rw e (omega arith);
    } in
    let r = run-IsKept limits k t _ as_ o p empty in
    record {
      hourly_priority = omega (arith, r.hourly_priority now h);
      hourly_routine = omega (arith, r.hourly_routine now h);
      daily_routine = omega (arith, r.daily_routine now h);
    }
