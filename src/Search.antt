-- ===== src/Search.antt =====
-- src/search/: hybrid retrieval.
pub mod Types
pub mod Weights
pub mod Rrf
pub mod Synonyms
pub mod Hybrid
