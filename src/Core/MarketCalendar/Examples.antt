-- ===== src/Core/MarketCalendar/Examples.antt =====
-- Days and instants around holidays.
use systematic_trading_valid.Common.{
  arith, false, nat_eq, pair_eq, refl, some, true, ℕ, ◌%◌, ◌*◌, ◌+◌, ◌-◌, ◌/◌, ◌<◌, ◌≡◌, ◌≤◌,
}
use systematic_trading_valid.Common.Text.{text_eq}
use systematic_trading_valid.Core.MarketCalendar.{
  Wall, Zone, date, effective_reference_time, expected_bars_for_session, is_trading_day,
  is_within_rth, last_close_from, last_session_close, nyse, session_close_time, time, weekday,
  within_rth_at,
}
use systematic_trading_valid.Core.MarketCalendar.LastClose.{
  HasClosed, IsLastClose, ten_days_suffice,
}
use systematic_trading_valid.Core.MarketCalendar.Reference.{stock_reference}

weekday_known : weekday (date 2026 7 3) ≡ 4
weekday_known = refl

ordinal_known : date 2026 7 3 ≡ 739800
ordinal_known = refl

abbrev day_length : ℕ
day_length = time 24 0

-- Eastern time without daylight saving: UTC less five hours
abbrev winter_et : ℕ → Wall
winter_et t = record { day = (t - time 5 0) / day_length; clock = (t - time 5 0) % day_length }

winter_back :
    (w : Wall)
    → time 3 0 ≤ w.clock
    → w.clock < time 24 0
    → winter_et (w.day * day_length + w.clock + time 5 0) ≡ w
winter_back w h k = ground arith

abbrev winter : Zone
winter = record {
  to_et = winter_et;
  to_utc = λ w. w.day * day_length + w.clock + time 5 0;
  back = winter_back;
}

-- Sunday, 28 November 2027, at noon: the session before it is Friday's, which closed early.
abbrev sunday : ℕ
sunday = date 2027 11 28 * day_length + time 17 0

abbrev friday_close : Wall
friday_close = record { day = date 2027 11 26; clock = time 13 0 }

sunday_reference : effective_reference_time winter nyse sunday false ≡ winter.to_utc friday_close
unfolding effective_reference_time is_within_rth within_rth_at last_session_close last_close_from
    is_trading_day session_close_time
sunday_reference = refl

early_bars : expected_bars_for_session nyse (date 2027 11 26) 15 ≡ 14
unfolding expected_bars_for_session is_trading_day session_close_time
early_bars = refl

stock_reference_example :
    (is_within_rth winter nyse (effective_reference_time winter nyse sunday false) ≡ true)
    × (effective_reference_time winter nyse
          (effective_reference_time winter nyse sunday false)
          false
        ≡ effective_reference_time winter nyse sunday false)
stock_reference_example = stock_reference winter sunday (omega arith)

friday_closed : HasClosed nyse (winter.to_et sunday) (date 2027 11 26)
unfolding is_trading_day session_close_time
friday_closed = (refl, refl)

ten_days_suffice_example :
    (w : Wall) × (last_close_from nyse (winter.to_et sunday) 10 (winter.to_et sunday).day ≡ some w)
    × IsLastClose nyse (winter.to_et sunday) w
ten_days_suffice_example =
    ten_days_suffice nyse (winter.to_et sunday) (date 2027 11 26) friday_closed (omega arith)
