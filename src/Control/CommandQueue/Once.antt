-- ===== src/Control/CommandQueue/Once.antt =====
-- A claimed command is not claimed again.
use systematic_trading_valid.Common.{Bool, false, if◌then◌else◌, nat_eq, pair_eq, true}
use systematic_trading_valid.Common.Text.{text_eq}
use systematic_trading_valid.Control.CommandQueue.{status_eq}
use systematic_trading_valid.Control.CommandQueue.Claims.{Bus}

abbrev picked : (m x l : Bool) → Bus → Bus → Bus → Bus × Bool
picked m x l a b c = if m then (a, true) else if x then (b, false) else (c, l)
