-- ===== src/Context.antt =====
-- src/context: the assembly of a token-budgeted context package.
pub mod Types
pub mod Budget
pub mod Recency
pub mod Dedup
pub mod Expander
pub mod Cache
pub mod Assembler
