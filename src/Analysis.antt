-- ===== src/Analysis.antt =====
-- src/analysis: what the optimiser computes about a function before it changes it.
pub mod UseDef
pub mod Dominator
pub mod Cfg
