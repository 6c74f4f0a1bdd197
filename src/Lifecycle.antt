-- ===== src/Lifecycle.antt =====
-- The life of a strategy leg (src/lifecycle): its state machine, its monitors and its hash chain.
pub mod StateMachine
pub mod HashChain
pub mod DemotionMonitors
