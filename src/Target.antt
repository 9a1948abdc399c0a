-- ===== src/Target.antt =====
-- src/target: the back ends.
pub mod Aarch64
