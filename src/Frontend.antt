-- ===== src/Frontend.antt =====
-- Language/Frontend/src: the tokens of a program text.
pub mod Symbols
pub mod Keywords
pub mod Lexer
pub mod Spelling
pub mod Bounds
pub mod Facts
pub mod Recognised
pub mod Rounds
pub mod Reads
pub mod Unended
pub mod Ends
