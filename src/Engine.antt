-- ===== src/Engine.antt =====
-- The engine's safety machinery (src/engine).
pub mod Escalation
pub mod Degradation
pub mod EntryAuthority
pub mod CapitalLedger
pub mod Commissioning
pub mod BarFreshness
pub mod SloMonitor
pub mod Flatten
pub mod FillSieve
pub mod ColdStart
pub mod RiskGovernor
