-- ===== src/Context/Assembler.antt =====
-- src/context/assembler.rs: the pipeline from search results to a context package.
pub mod Summary
pub mod Allocate
pub mod Results
pub mod Package
mod Tests
use vektor.Common.{
  ℕ, ◌+◌, ◌-◌, Ordering, compare, Bool, true, false, ◌&&◌, ◌||◌, not, Option, some, none, List, [],
  ◌∷◌, ◌++◌, map, filter, length, if◌then◌else◌,
}
use vektor.Common.Text.{
  Text, codes, text_eq, text_cmp, lower, starts_with, strip_prefix, contains, member,
}
use vektor.Common.FilePath.{extension}
use vektor.Common.Sort.{sort_by, then_with}
use vektor.Common.Float.{FloatOps}
use vektor.Common.Int.{ℤ}
use vektor.Common.Outcome.{Result, ok, err, ◌>>=◌}
use vektor.Search.Types.{HybridResult}
use vektor.Context.Types.{AssemblyConfig, ContextChunk, ContextPackage, ChunkSource, SearchMetadata}
use vektor.Context.Budget.{Bpe, count_exact}
use vektor.Context.Recency
use vektor.Context.Recency.{RecencyTracker}
use vektor.Context.Dedup.{deduplicate}
use vektor.Context.Expander.{RelatedChunkStore, expand}
use Summary.{
  percentage, files_included, budget_gap_reason, suggested_action, confidence, clusters, warnings,
}
use Allocate.{allocate_budget, package_text}

pub record RelatedExpansion (F : Type 0) : Type 0 where
  pub query_vec : List F
  pub store : RelatedChunkStore F

pub record ContextAssembler (D : Type 0) : Type 0 where
  pub recency : RecencyTracker
  pub index_status : Text
  pub index_coverage_pct : D
  pub cache_hit : Bool
  pub search_time_ms : ℕ

module _ {D : Type 0} ⦃d : FloatOps D⦄ where
  -- `with_status` is the same with the clock's time.
  pub with_now_and_status : ℤ → Text → ContextAssembler D
  with_now_and_status now index_status = record {
    recency = record { now = now };
    index_status = index_status;
    index_coverage_pct =
        if text_eq index_status (codes "full") then d.literal 100 1 else d.literal 0 1;
    cache_hit = false;
    search_time_ms = 0;
  }

pub is_doc_path : Text → Bool
unfolding lower starts_with contains member extension
is_doc_path rel_path =
    let low = lower rel_path in
    if starts_with low (codes "docs/") || contains low (codes "/docs/")
    then true
    else elim (extension low) [
      | none ↦ false
      | some ext ↦
          member ext (map codes ("adoc" ∷ "asciidoc" ∷ "md" ∷ "markdown" ∷ "rst" ∷ "txt" ∷ []))
    ]

pub path_in_scope : Text → Text → Bool
unfolding text_eq strip_prefix starts_with
path_in_scope rel_path scope =
    if text_eq rel_path scope then true else elim (strip_prefix rel_path scope) [
      | none ↦ false
      | some rest ↦ starts_with rest (codes "/")
    ]

module _ {F : Type 0} where
  pub context_chunk_from_hybrid : HybridResult F → ContextChunk F
  context_chunk_from_hybrid result = record {
    chunk_id = result.chunk_id;
    content = result.content;
    rel_path = result.rel_path;
    first_line = result.start_line;
    last_line = result.end_line;
    symbol = result.symbol_name;
    symbol_type = result.symbol_type;
    language = result.language;
    relevance_score = result.relevance_score;
    source = ChunkSource.search;
    reason = codes "Primary search result for the query";
    is_expanded = false;
    last_modified = result.last_modified;
  }

  -- The path tests of the first loop: documents, and the scope.
  pub path_allowed : AssemblyConfig F → Text → Bool
  path_allowed config rel_path =
      if not config.include_docs && is_doc_path rel_path
      then false
      else elim config.scope [ none ↦ true | some scope ↦ path_in_scope rel_path scope ]

  module _ ⦃f : FloatOps F⦄ where
    pub max_hybrid_score : F → List (HybridResult F) → F
    max_hybrid_score acc [] = acc
    max_hybrid_score acc (r ∷ rs) = max_hybrid_score (f.fmax acc r.relevance_score) rs

    pub normalized_score : F → F → F
    normalized_score score max_score =
        if f.le max_score (f.literal 0 1)
        then f.literal 0 1
        else f.clamp (f.div score max_score) (f.literal 0 1) (f.literal 1 1)

    -- The first loop: the results that stay, and whether the threshold dropped one.
    pub select_direct : AssemblyConfig F → F → List (HybridResult F) → List (HybridResult F) × Bool
    select_direct config max_raw_score [] = ([], false)
    select_direct config max_raw_score (result ∷ results) =
        let score = normalized_score result.relevance_score max_raw_score in
        let (direct, filtered) = select_direct config max_raw_score results in
        if not (path_allowed config result.rel_path)
        then (direct, filtered)
        else if f.lt score config.min_relevance
        then (direct, true)
        else (record result { relevance_score = score } ∷ direct, filtered)

    abbrev pub by_score : ContextChunk F → ContextChunk F → Ordering
    by_score left right = then_with (f.total_cmp right.relevance_score left.relevance_score) (
        then_with (text_cmp left.rel_path right.rel_path) (
          then_with (compare left.first_line right.first_line)
            (compare left.last_line right.last_line)))

    pub boost : RecencyTracker → ContextChunk F → ContextChunk F
    boost recency chunk = record chunk {
      relevance_score = Recency.score recency chunk.relevance_score chunk.last_modified;
    }

    -- `chunks.extend(expanded)`, where related context is asked for and a store is at hand.
    pub add_related :
        AssemblyConfig F
        → Option (RelatedExpansion F)
        → List (HybridResult F)
        → List (ContextChunk F)
        → Result (List (ContextChunk F))
    add_related config none direct chunks = ok chunks
    add_related config (some related) direct chunks =
        if config.include_related
        then (do expanded ← expand direct related.query_vec related.store; ok (chunks ++ expanded))
        else ok chunks

    -- The results that pass the tests, merged where the configuration asks for it.
    pub direct_results : AssemblyConfig F → List (HybridResult F) → List (HybridResult F)
    direct_results config results =
        let direct = (select_direct config (max_hybrid_score (f.literal 0 1) results) results).0 in
        if config.deduplicate then deduplicate direct else direct

    -- The ranked chunks that the budget is shared among.
    pub ranked_chunks :
        RecencyTracker
        → AssemblyConfig F
        → List (HybridResult F)
        → Option (RelatedExpansion F)
        → Result (List (ContextChunk F))
    ranked_chunks recency config results related =
        let direct = direct_results config results in
        do
          chunks ← add_related config related direct (map context_chunk_from_hybrid direct)
          ok (sort_by by_score (map (boost recency) chunks))

module _ {F D : Type 0} ⦃f : FloatOps F⦄ ⦃d : FloatOps D⦄ where
  -- The tail of `assemble`: what a package says of the chunks that it holds.
  pub describe :
      ContextAssembler D
      → List (HybridResult F)
      → AssemblyConfig F
      → Option (RelatedExpansion F)
      → List (ContextChunk F)
      → ℕ
      → ContextPackage F D
  describe assembler results config related allocated total_tokens =
      let max_raw_score = max_hybrid_score (f.literal 0 1) results in
      let (passed, threshold_filtered) = select_direct config max_raw_score results in
      let chunks_deduplicated = length passed - length (direct_results config results) in
      let missing_related_context =
        config.include_related && elim related as (λ _. Bool) [ none ↦ true | some _ ↦ false ] in
      let result_confidence = confidence allocated config.min_relevance in
      record {
        chunks = allocated;
        files_included = files_included allocated;
        total_tokens = total_tokens;
        budget_used_pct = percentage total_tokens config.token_budget;
        missing_context_warnings =
            warnings assembler.index_status chunks_deduplicated config.include_related
              missing_related_context;
        search_metadata = record {
          search_time_ms = assembler.search_time_ms;
          direct_results = length results;
          expanded_results = length (filter (λ (c : ContextChunk F). c.is_expanded) allocated);
        };
        result_confidence = result_confidence;
        budget_gap_reason =
            budget_gap_reason assembler.index_status threshold_filtered total_tokens config;
        suggested_action = suggested_action result_confidence assembler.index_status allocated;
        clusters = clusters allocated;
        chunks_deduplicated = chunks_deduplicated;
        index_status = assembler.index_status;
        index_coverage_pct = assembler.index_coverage_pct;
        cache_hit = assembler.cache_hit;
      }

  pub assemble :
      Bpe
      → ContextAssembler D
      → List (HybridResult F)
      → AssemblyConfig F
      → Option (RelatedExpansion F)
      → Result (ContextPackage F D)
  assemble bpe assembler results config related =
      ranked_chunks assembler.recency config results related >>= λ chunks.
      allocate_budget D bpe chunks config >>= λ allocated.
      count_exact bpe (package_text allocated) >>= λ total_tokens.
      ok (describe assembler results config related allocated total_tokens)
