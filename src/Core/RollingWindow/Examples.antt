-- ===== src/Core/RollingWindow/Examples.antt =====
-- A window of three bars that wraps around.
use systematic_trading_valid.Common.{List, [], arith, nat_eq, pair_eq, refl, ℕ, ◌+◌, ◌-◌, ◌∷◌, ◌≡◌}
use systematic_trading_valid.Common.Int.{pos, ◌+ℤ◌}
use systematic_trading_valid.Common.Text.{text_eq}
use systematic_trading_valid.Core.RollingWindow.{
  Bar, append, apply_corporate_action_offset, clear, new_window, ordered, rewrite_latest,
  set_forming, upsert_bar, write_bar_slot,
}
use systematic_trading_valid.Core.RollingWindow.Refinement.{
  Mirrors, Op, append_bar, apply, form, reset, run, run-Mirrors, shift, upsert,
}

abbrev bar : ℕ → ℕ → Bar
bar t c = record {
  timestamp = t;
  open_price = pos (c + 1);
  high = pos (c + 2);
  low = pos (c - 1);
  close = pos c;
  volume = pos 10;
}

-- The bar of time 5 is revised twice, that of time 2 is late, and that of time 9 is still forming.
abbrev ops : List Op
ops =
    append_bar (bar 1 11)
    ∷ append_bar (bar 3 12)
    ∷ append_bar (bar 4 13)
    ∷ upsert (bar 5 14)
    ∷ upsert (bar 5 15)
    ∷ append_bar (bar 2 99)
    ∷ form (bar 9 98)
    ∷ []

closes_seen :
    ordered (run (new_window 3) ops) (run (new_window 3) ops).closes ≡ pos 12 ∷ pos 13 ∷ pos 15 ∷ []
unfolding run apply append upsert_bar set_forming write_bar_slot rewrite_latest new_window ordered
closes_seen = refl

run-Mirrors_example : Mirrors (run (new_window 3) ops)
run-Mirrors_example = run-Mirrors 3 ops (omega arith)

-- A reset does not clear the mark of an offset, so the bars that follow are not shifted.
offset_once :
    ordered
      (run (new_window 3) (
        append_bar (bar 1 11) ∷ shift (pos 4) ∷ reset ∷ append_bar (bar 1 11) ∷ shift (pos 4) ∷ []))
      (run (new_window 3) (
        append_bar (bar 1 11)
        ∷ shift (pos 4)
        ∷ reset
        ∷ append_bar (bar 1 11)
        ∷ shift (pos 4)
        ∷ [])).closes
    ≡ pos 11 ∷ []
unfolding run apply append clear apply_corporate_action_offset write_bar_slot new_window ordered
    ◌+ℤ◌
offset_once = refl
