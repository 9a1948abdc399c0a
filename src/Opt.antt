-- ===== src/Opt.antt =====
-- src/opt: the optimiser.
pub mod Common
pub mod Widths
pub mod Reference
pub mod Fold
pub mod CopyProp
pub mod Dce
pub mod Gvn
pub mod Fates
