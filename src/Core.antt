-- ===== src/Core.antt =====
-- The core data structures (src/core): the rolling window of bars and the session calendar.
pub mod RollingWindow
pub mod MarketCalendar
