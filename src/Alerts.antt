-- ===== src/Alerts.antt =====
-- The alert channels (src/alerts): the hard cap on pushes, and the throttle in front of it.
pub mod OutboundCap
pub mod Throttle
