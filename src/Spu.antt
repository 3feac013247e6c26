-- ===== src/Spu.antt =====
-- CPU/CPU/SPU: the machine that runs byte code.
pub mod Vm
pub mod Commands
pub mod Sound
pub mod Steps
pub mod Keeps
pub mod Loops
pub mod Arithmetic
pub mod Expressions
pub mod Evaluates
