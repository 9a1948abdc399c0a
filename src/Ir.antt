-- ===== src/Ir.antt =====
-- src/ir: the intermediate representation.
pub mod Opcode
pub mod TypeId
pub mod Types
pub mod Function
pub mod Block
pub mod Rewire
