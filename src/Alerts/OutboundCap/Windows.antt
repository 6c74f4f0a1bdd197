-- ===== src/Alerts/OutboundCap/Windows.antt =====
-- Calls on the shared cap, of which each ends before the next begins.
use systematic_trading_valid.Common.{Bool, List, Option, [], nat_eq, pair_eq, ℕ, ◌∷◌}
use systematic_trading_valid.Common.Text.{Text, text_eq}
use systematic_trading_valid.Alerts.OutboundCap.{Cap, allow, lane_eq, note_429}

-- A call of `allow` or of `note_429`, with its clock and whether the database faults.
pub data Call : Type 0 where
  ask : (now : ℕ) (kind severity : Option Text) (fault : Bool) → Call
  rejected : (now : ℕ) (fault : Bool) → Call

abbrev pub clock : Call → ℕ
clock (ask now kind severity fault) = now
clock (rejected now fault) = now

unfoldable pub apply : Cap → Call → Cap
apply c (ask now kind severity fault) = (allow c now kind severity fault).0
apply c (rejected now fault) = note_429 c now fault

unfoldable pub run : Cap → List Call → Cap
run c [] = c
run c (a ∷ cs) = run (apply c a) cs
