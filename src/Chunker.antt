-- ===== src/Chunker.antt =====
-- src/chunker/: source files to chunks.
pub mod Types
pub mod Sliding
pub mod Ast
pub mod Files
