-- ===== src/Assembler.antt =====
-- CPU/CPU/Assembler/src: from the lines of an assembly file to byte code.
pub mod Buffer
pub mod Commands
pub mod Labels
pub mod Writes
pub mod Expressions
pub mod Evaluates
pub mod Missing
pub mod Reduced
pub mod Full
pub mod Fixed
