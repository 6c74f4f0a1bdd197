-- ===== src/Research.antt =====
-- The research pipeline (src/research): purged and embargoed walk-forward splits.
pub mod PurgedWf
