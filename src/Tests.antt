-- ===== src/Tests.antt =====
-- The theorems at concrete inputs.
mod Arithmetic
mod Optimizer
mod Compiler
mod Syntax
mod Source
mod Machine
mod Files
