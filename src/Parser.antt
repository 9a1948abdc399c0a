-- ===== src/Parser.antt =====
-- src/parser: the reader of the textual form.
pub mod Opcodes
pub mod Lexer
