-- ===== src/Support.antt =====
-- src/support: memory.
pub mod Memory
pub mod Arena
