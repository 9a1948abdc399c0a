-- ===== src/Link.antt =====
-- src/nylink: the linker.
pub mod Reloc
