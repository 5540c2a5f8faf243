-- ===== src/Analysis.antt =====
-- src/analysis: what is told of a function.
pub mod Explain
pub mod Dot
pub mod Labels
