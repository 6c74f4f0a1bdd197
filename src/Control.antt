-- ===== src/Control.antt =====
-- The control plane (src/control): the persistent command bus and the heartbeat watchdog.
pub mod CommandQueue
pub mod Watchdog
