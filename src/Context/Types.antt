-- ===== src/Context/Types.antt =====
-- src/context/types.rs. `F` stands for `f32` and `D` for `f64`.
use vektor.Common.{ℕ, Bool, Option, List}
use vektor.Common.Text.{Text}
use vektor.Common.Int.{ℤ}

pub record AssemblyConfig (F : Type 0) : Type 0 where
  pub token_budget : ℕ
  pub max_files : ℕ
  pub include_related : Bool
  pub min_relevance : F
  pub deduplicate : Bool
  pub include_docs : Bool
  pub scope : Option Text

pub data Confidence : Type 0 where
  high medium low : Confidence

pub data GapReason : Type 0 where
  no_more_relevant index_incomplete threshold_filtered : GapReason

pub record ResultCluster (F : Type 0) : Type 0 where
  pub path_prefix : Text
  pub chunk_count : ℕ
  pub avg_relevance : F

pub data ChunkSource : Type 0 where
  search related dependency : ChunkSource

pub record ContextChunk (F : Type 0) : Type 0 where
  pub chunk_id : Text
  pub content : Text
  pub rel_path : Text
  -- The pair `lines`.
  pub first_line : ℕ
  pub last_line : ℕ
  pub symbol : Option Text
  pub symbol_type : Option Text
  pub language : Text
  pub relevance_score : F
  pub source : ChunkSource
  pub reason : Text
  pub is_expanded : Bool
  pub last_modified : ℤ

pub record SearchMetadata : Type 0 where
  pub search_time_ms : ℕ
  pub direct_results : ℕ
  pub expanded_results : ℕ

pub record ContextPackage (F D : Type 0) : Type 0 where
  pub chunks : List (ContextChunk F)
  pub files_included : List Text
  pub total_tokens : ℕ
  pub budget_used_pct : D
  pub missing_context_warnings : List Text
  pub search_metadata : SearchMetadata
  pub result_confidence : Confidence
  pub budget_gap_reason : Option GapReason
  pub suggested_action : Option Text
  pub clusters : List (ResultCluster F)
  pub chunks_deduplicated : ℕ
  pub index_status : Text
  pub index_coverage_pct : D
  pub cache_hit : Bool
