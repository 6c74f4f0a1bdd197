-- ===== src/Alerts/OutboundCap/Overlap.antt =====
-- src/alerts/outbound_cap.py: calls that overlap. Two processes share the table, and `allow` reads and
-- inserts in separate statements, so a run is a sequence of statements in the order of their clock.
use systematic_trading_valid.Common.{
  Bool, List, Option, [], length, nat_eq, none, pair_eq, some, suc, zero, ℕ, ◌∷◌, ◌≤◌,
}
use systematic_trading_valid.Common.Text.{Text, text_eq}
use systematic_trading_valid.Alerts.OutboundCap.{
  Cap, Send, insert_row, judge, lane_eq, note_429, row_for,
}

-- The table, and the rows that calls in flight are about to insert
pub record Shared : Type 0 where
  pub cap : Cap
  pub in_flight : List Send

abbrev pub item : ℕ → List Send → Option Send
item n [] = none
item zero (x ∷ xs) = some x
item (suc n) (x ∷ xs) = item n xs

abbrev pub without : ℕ → List Send → List Send
without n [] = []
without zero (x ∷ xs) = xs
without (suc n) (x ∷ xs) = x ∷ without n xs

-- The reads of a call; the insert of one that is in flight, or its failure, which still lets the push out; and a
-- 429.
pub data Step : Type 0 where
  look : (now : ℕ) (kind severity : Option Text) (fault : Bool) → Step
  land : ℕ → Step
  lose : ℕ → Step
  refused : (now : ℕ) (fault : Bool) → Step

abbrev pub set_out : Option Send → Shared → Shared
set_out none s = s
set_out (some x) s = record s { in_flight = x ∷ s.in_flight }

unfoldable pub step : Shared → Step → Shared
step s (look now kind severity fault) =
    set_out (row_for now kind (judge s.cap now kind severity fault)) s
step s (land n) = record {
  cap = insert_row (item n s.in_flight) s.cap;
  in_flight = without n s.in_flight;
}
step s (lose n) = record s { in_flight = without n s.in_flight }
step s (refused now fault) = record s { cap = note_429 s.cap now fault }

unfoldable pub run_steps : Shared → List Step → Shared
run_steps s [] = s
run_steps s (a ∷ as_) = run_steps (step s a) as_

-- The instant after a step; an insert has no clock of its own.
abbrev pub clock_after : ℕ → Step → ℕ
clock_after t (look now kind severity fault) = now
clock_after t (land n) = t
clock_after t (lose n) = t
clock_after t (refused now fault) = now

-- The clock never goes back.
abbrev pub InOrder : ℕ → List Step → Type 0
InOrder t [] = Unit
InOrder t (a ∷ as_) = (t ≤ clock_after t a) × InOrder (clock_after t a) as_

abbrev pub last_clock : ℕ → List Step → ℕ
last_clock t [] = t
last_clock t (a ∷ as_) = last_clock (clock_after t a) as_

-- Never more than `k` calls are between their reads and their insert.
abbrev pub Overlaps : ℕ → Shared → List Step → Type 0
Overlaps k s [] = Unit
Overlaps k s (a ∷ as_) = (length (step s a).in_flight ≤ k) × Overlaps k (step s a) as_
