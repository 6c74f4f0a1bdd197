-- ===== src/Engine/RiskGovernor/HighWater.antt =====
-- The peak of a leg is the highest profit that was ever read for it, or zero.
use systematic_trading_valid.Common.{
  All, All-append, All-map, Bool, Bool-cases, List, [], ap, arith, beq_iff, false, if◌then◌else◌,
  inl, inr, nat_eq, pair_eq, refl, suc, sym, true, zero, ℕ, ◌&&◌, ◌++◌, ◌==◌, ◌∙◌, ◌∷◌, ◌≡◌,
}
use systematic_trading_valid.Common.Int.{eq_of_parts, max_ℤ, pos, ℤ, ◌≤ℤ◌}
use systematic_trading_valid.Common.Text.{Text, text_eq}
use systematic_trading_valid.Common.Dict.{lookup, lookup-insert}
use systematic_trading_valid.Engine.RiskGovernor.{
  Governor, drop_first, equity_history_limit, history_of, new_governor, peak_of, push_bounded,
}
use systematic_trading_valid.Engine.RiskGovernor.Evaluate.{
  Leg, Scores, carry_leg, evaluate, history_peak, max_from, measure_leg, pnl_of, ratcheted,
  resolve_peak, score_leg, score_legs,
}

-- No kept reading lies above the peak, which is zero or more.
pub record IsPeaked (g : Governor) (s : Text) : Type 0 where
  pub above_zero : pos 0 ≤ℤ peak_of g s
  pub above_history : All (λ x. x ≤ℤ peak_of g s) (history_of g s)

All-drop_first {ℓ} :
    {A : Type ℓ} (P : A → Type 0) (n : ℕ) (xs : List A) → All P xs → All P (drop_first n xs)
All-drop_first P zero xs h = h
All-drop_first P (suc n) [] h = tt
All-drop_first P (suc n) (x ∷ xs) (h, hs) = All-drop_first P n xs hs

max_from-le : (m b : ℤ) (xs : List ℤ) → m ≤ℤ b → All (λ x. x ≤ℤ b) xs → max_from m xs ≤ℤ b
max_from-le m b [] h hs = h
max_from-le m b (x ∷ xs) h (k, ks) = max_from-le (max_ℤ m x) b xs (ground arith) ks

history_peak-le : (b : ℤ) (xs : List ℤ) → pos 0 ≤ℤ b → All (λ x. x ≤ℤ b) xs → history_peak xs ≤ℤ b
history_peak-le b [] z h = z
history_peak-le b (x ∷ xs) z (h, hs) = max_from-le x b xs h hs

le_max_left : (a b : ℤ) → a ≤ℤ max_ℤ a b
le_max_left a b = ground arith

le_max_right : (a b : ℤ) → b ≤ℤ max_ℤ a b
le_max_right a b = ground arith

le_trans_ℤ : (a b c : ℤ) → a ≤ℤ b → b ≤ℤ c → a ≤ℤ c
le_trans_ℤ a b c h k = omega arith

push_bounded-le :
    (n : ℕ) (b x : ℤ) (xs : List ℤ)
    → All (λ y. y ≤ℤ b) xs
    → All (λ y. y ≤ℤ max_ℤ b x) (push_bounded n xs x)
push_bounded-le n b x xs h =
    All-drop_first (λ y. y ≤ℤ max_ℤ b x) _ (xs ++ (x ∷ []))
      (All-append (λ y. y ≤ℤ max_ℤ b x) xs (x ∷ [])
        (All-map (λ y. y ≤ℤ b) (λ y. y ≤ℤ max_ℤ b x) xs
          (λ y k. le_trans_ℤ y b _ k (le_max_left b x)) h)
        (le_max_right b x, tt))

max_absorbs : (p h x : ℤ) → h ≤ℤ max_ℤ p x → max_ℤ (max_ℤ p h) x ≡ max_ℤ p x
max_absorbs p h x k = ground (arith, eq_of_parts h x, eq_of_parts p x, eq_of_parts p h)

module _ (g : Governor) (s : Text) (x : ℤ) (i : IsPeaked g s) where
  abbrev new_history : List ℤ
  new_history = push_bounded equity_history_limit (history_of g s) x

  new_history-le : All (λ y. y ≤ℤ max_ℤ (peak_of g s) x) new_history
  new_history-le =
      push_bounded-le equity_history_limit (peak_of g s) x (history_of g s) i.above_history

  new_peak_above : pos 0 ≤ℤ max_ℤ (peak_of g s) x
  new_peak_above = le_trans_ℤ (pos 0) (peak_of g s) _ i.above_zero (le_max_left (peak_of g s) x)

  pub resolve_peak_lem : resolve_peak g s x new_history ≡ max_ℤ (peak_of g s) x
  unfolding resolve_peak
  resolve_peak_lem =
      max_absorbs (peak_of g s) (history_peak new_history) x
        (history_peak-le _ new_history new_peak_above new_history-le)

abbrev pub ArePeaked : Governor → Type 0
ArePeaked g = (s : Text) → IsPeaked g s

-- A reading of a leg raises its own peak, and touches no other leg's.
pub peak_of-measure :
    (s t : Text) (x : ℤ) (c : Scores)
    → ArePeaked c.governor
    → peak_of (measure_leg s x c).governor t
      ≡ (if s == t then max_ℤ (peak_of c.governor s) x else peak_of c.governor t)
unfolding measure_leg
peak_of-measure s t x c i = elim (Bool-cases (s == t)) [
  | inl e ↦ simp (lookup-insert, e) (resolve_peak_lem c.governor s x (i s))
  | inr e ↦ simp (lookup-insert, e)
]

history_of-measure :
    (s t : Text) (x : ℤ) (c : Scores) (i : ArePeaked c.governor)
    → history_of (measure_leg s x c).governor t
      ≡ (if s == t then new_history c.governor s x (i s) else history_of c.governor t)
unfolding measure_leg
history_of-measure s t x c i = elim (Bool-cases (s == t)) [
  | inl e ↦ simp (lookup-insert, e)
  | inr e ↦ simp (lookup-insert, e)
]

pub measure_leg-ArePeaked :
    (s : Text) (x : ℤ) (c : Scores) → ArePeaked c.governor → ArePeaked (measure_leg s x c).governor
measure_leg-ArePeaked s x c i t = elim (Bool-cases (s == t)) [
  | inl e ↦ record {
    above_zero =
        rw (peak_of-measure s t x c i, e, if◌then◌else◌) (new_peak_above c.governor s x (i s));
    above_history =
        rw (peak_of-measure s t x c i, history_of-measure s t x c i, e, if◌then◌else◌)
          (new_history-le c.governor s x (i s));
  }
  | inr e ↦ record {
    above_zero = rw (peak_of-measure s t x c i, e, if◌then◌else◌) (i t).above_zero;
    above_history =
        rw (peak_of-measure s t x c i, history_of-measure s t x c i, e, if◌then◌else◌)
          (i t).above_history;
  }
]

score_leg-ArePeaked :
    (l : Leg) (c : Scores) → ArePeaked c.governor → ArePeaked (score_leg l c).governor
unfolding carry_leg
score_leg-ArePeaked l c i = elim (Bool-cases l.enabled) [
  | inl e ↦ elim (Bool-cases l.due) [
    | inl d ↦ rw (e, d, if◌then◌else◌) (measure_leg-ArePeaked l.strategy_id (pnl_of l) c i)
    | inr d ↦ rw (e, d, if◌then◌else◌) i
  ]
  | inr e ↦ rw (e, if◌then◌else◌) i
]

-- The readings of a leg in a cycle: its profit, each time that it is enabled and due
abbrev readings : Text → List Leg → List ℤ
readings s [] = []
readings s (l ∷ ls) =
    let rest = readings s ls in
    if l.enabled && l.due && (l.strategy_id == s) then pnl_of l ∷ rest else rest

same_leg :
    (s t : Text) (c : Scores) (x : ℤ)
    → (if s == t then max_ℤ (peak_of c.governor s) x else peak_of c.governor t)
      ≡ (if s == t then max_ℤ (peak_of c.governor t) x else peak_of c.governor t)
same_leg s t c x = elim (Bool-cases (s == t)) [
  | inl e ↦
      ap (λ r. if s == t then max_ℤ (peak_of c.governor r) x else peak_of c.governor t)
        ((beq_iff s t).0 e)
  | inr e ↦ simp e
]

peak_of-score :
    (s : Text) (l : Leg) (c : Scores)
    → ArePeaked c.governor
    → peak_of (score_leg l c).governor s ≡ (
        if l.enabled && l.due && (l.strategy_id == s)
        then max_ℤ (peak_of c.governor s) (pnl_of l)
        else peak_of c.governor s)
unfolding carry_leg
peak_of-score s l c i = elim (Bool-cases l.enabled) [
  | inl e ↦ elim (Bool-cases l.due) [
    | inl d ↦
        simp (e, d)
          (peak_of-measure l.strategy_id s (pnl_of l) c i ∙ same_leg l.strategy_id s c (pnl_of l))
    | inr d ↦ simp (e, d)
  ]
  | inr e ↦ simp e
]

-- The highest of some readings and a start
abbrev pub high_water : ℤ → List ℤ → ℤ
high_water m [] = m
high_water m (x ∷ xs) = high_water (max_ℤ m x) xs

high_water-append :
    (m : ℤ) (xs ys : List ℤ) → high_water m (xs ++ ys) ≡ high_water (high_water m xs) ys
high_water-append m [] ys = refl
high_water-append m (x ∷ xs) ys = high_water-append (max_ℤ m x) xs ys

score_legs-ArePeaked :
    (ls : List Leg) (c : Scores) → ArePeaked c.governor → ArePeaked (score_legs ls c).governor
unfolding score_legs
score_legs-ArePeaked [] c i = i
score_legs-ArePeaked (l ∷ ls) c i =
    score_legs-ArePeaked ls (score_leg l c) (score_leg-ArePeaked l c i)

peak_of-score_legs :
    (s : Text) (ls : List Leg) (c : Scores)
    → ArePeaked c.governor
    → peak_of (score_legs ls c).governor s ≡ high_water (peak_of c.governor s) (readings s ls)
unfolding score_legs
peak_of-score_legs s [] c i = refl
peak_of-score_legs s (l ∷ ls) c i =
    peak_of-score_legs s ls (score_leg l c) (score_leg-ArePeaked l c i)
    ∙ ap (λ m. high_water m (readings s ls)) (peak_of-score s l c i)
    ∙ first_reading (l.enabled && l.due && (l.strategy_id == s)) (peak_of c.governor s) (pnl_of l)
        (readings s ls)
  where
    first_reading :
        (b : Bool) (m x : ℤ) (xs : List ℤ)
        → high_water (if b then max_ℤ m x else m) xs ≡ high_water m (if b then x ∷ xs else xs)
    first_reading true m x xs = refl
    first_reading false m x xs = refl

-- A cycle: the legs and the broker's equity
pub record Cycle : Type 0 where
  pub legs : List Leg
  pub broker_equity : ℤ

module _ (correlation : List ℤ → List ℤ → ℤ) where
  unfoldable pub run_cycles : Governor → List Cycle → Governor
  run_cycles g [] = g
  run_cycles g (c ∷ cs) = run_cycles (evaluate correlation g c.legs c.broker_equity).0 cs

  abbrev pub all_readings : Text → List Cycle → List ℤ
  all_readings s [] = []
  all_readings s (c ∷ cs) = readings s c.legs ++ all_readings s cs

  pub ratcheted-ArePeaked : (g : Governor) (q : ℤ) → ArePeaked g → ArePeaked (ratcheted g q)
  ratcheted-ArePeaked g q i s = record {
    above_zero = (i s).above_zero;
    above_history = (i s).above_history;
  }

  pub evaluate-ArePeaked :
      (g : Governor) (ls : List Leg) (q : ℤ)
      → ArePeaked g
      → ArePeaked (evaluate correlation g ls q).0
  unfolding evaluate
  evaluate-ArePeaked g ls q i = score_legs-ArePeaked ls _ (ratcheted-ArePeaked g q i)

  peak_of-run :
      (g : Governor) (s : Text) (cs : List Cycle)
      → ArePeaked g
      → peak_of (run_cycles g cs) s ≡ high_water (peak_of g s) (all_readings s cs)
  unfolding run_cycles evaluate
  peak_of-run g s [] i = refl
  peak_of-run g s (c ∷ cs) i =
      peak_of-run (evaluate correlation g c.legs c.broker_equity).0 s cs
        (evaluate-ArePeaked g c.legs c.broker_equity i)
      ∙ ap (λ m. high_water m (all_readings s cs))
          (peak_of-score_legs s c.legs _ (ratcheted-ArePeaked g c.broker_equity i))
      ∙ sym (high_water-append (peak_of g s) (readings s c.legs) (all_readings s cs))

  pub new-ArePeaked : ArePeaked new_governor
  unfolding lookup
  new-ArePeaked s = record { above_zero = omega arith; above_history = tt }

  -- After any cycles of a new governor, the peak that a leg's drawdown is measured from is the highest profit
  -- ever read for it, or zero: also where the reading has left the bounded history, and whatever the
  -- other legs, the equity and the allocations were.
  pub peak_is_high_water :
      (s : Text) (cs : List Cycle)
      → peak_of (run_cycles new_governor cs) s ≡ high_water (pos 0) (all_readings s cs)
  unfolding lookup
  peak_is_high_water s cs = peak_of-run new_governor s cs new-ArePeaked
