-- ===== src/Search/Types.antt =====
-- The results that search passes on: src/search/hybrid.rs, and the hit types of
-- src/vector_store/mod.rs and src/text_index.rs. `F` stands for `f32`.
use vektor.Common.{ℕ, Option}
use vektor.Common.Text.{Text}
use vektor.Common.Int.{ℤ}

pub data SearchMode : Type 0 where
  hybrid semantic keyword : SearchMode

pub record HybridResult (F : Type 0) : Type 0 where
  pub chunk_id : Text
  pub rel_path : Text
  pub start_line : ℕ
  pub end_line : ℕ
  pub symbol_name : Option Text
  pub symbol_type : Option Text
  pub language : Text
  pub content : Text
  pub relevance_score : F
  pub semantic_score : Option F
  pub keyword_score : Option F
  pub last_modified : ℤ

-- A row of the vector store with its raw distance.
pub record SearchResult (F : Type 0) : Type 0 where
  pub score : F
  pub id : Text
  pub content_hash : Text
  pub rel_path : Text
  pub start_line : ℕ
  pub end_line : ℕ
  pub symbol_name : Option Text
  pub symbol_type : Option Text
  pub language : Text
  pub content : Text
  pub last_modified : ℤ

-- A BM25 hit of the text index.
pub record KeywordHit (F : Type 0) : Type 0 where
  pub chunk_id : Text
  pub rel_path : Text
  pub content : Text
  pub score : F
  pub start_line : ℕ
  pub end_line : ℕ
  pub symbol_name : Option Text
  pub language : Text
