-- ===== src/Execution.antt =====
-- Execution robustness (src/execution): idempotent orders, tracked positions, the reconciliation at boot.
pub mod Submission
pub mod Positions
pub mod BootReconciliation
