-- ===== src/Backend.antt =====
-- Language/Backend: assembly code from the tree (backend.cpp, backend_secondary.cpp).
pub mod Lines
pub mod Names
pub mod Codegen
pub mod Labels
pub mod Neat
pub mod Resolved
pub mod Landing
pub mod Convention
pub mod Text
pub mod Global
