-- ===== src/Examples.antt =====
-- Runs of the modelled code at concrete inputs, and the theorems applied to them.
mod Fold
mod Types
mod Functions
mod Blocks
mod Memory
mod Lexing
mod Copies
mod Dce
mod Dominators
mod Numbering
mod Encoding
mod Linking
mod Flow
