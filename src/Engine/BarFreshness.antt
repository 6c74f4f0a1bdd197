-- ===== src/Engine/BarFreshness.antt =====
-- src/engine/bar_freshness.py, with the timeframes of src/ingestor/alpaca.py: how long a bar has been closed, and when
-- it is stale.
use systematic_trading_valid.Common.{if◌then◌else◌, nat_eq, pair_eq, ℕ, ◌+◌, ◌-◌, ◌==◌}
use systematic_trading_valid.Common.Text.{Text, text, text_eq}

-- `TIMEFRAME_MINUTES.get(timeframe, 15)`
unfoldable pub timeframe_minutes : Text → ℕ
timeframe_minutes t =
    if t == text "1Min"
    then 1
    else if t == text "15Min"
    then 15
    else if t == text "1Hour"
    then 60
    else if t == text "4Hour"
    then 240
    else if t == text "1Day"
    then 1440
    else 15

-- `bar_staleness_seconds` and `stale_after_seconds` of src/engine/bar_freshness.py
unfoldable pub bar_staleness : ℕ → ℕ → ℕ → ℕ
bar_staleness bar_open period now = now - (bar_open + period)

unfoldable pub stale_after : ℕ → ℕ → ℕ
stale_after period delivery_latency = period + delivery_latency
