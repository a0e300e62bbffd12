-- ===== src/Search/Hybrid.antt =====
-- src/search/hybrid.rs: keyword, semantic and fused search. The retrievers are the traits of the
-- source; a hash map is the function that looks a key up.
pub mod Limits
pub mod Queries
pub mod Fusion
mod Tests
use vektor.Common.{
  ℕ, zero, suc, min, max, Bool, true, false, not, Option, some, none, List, [], ◌∷◌, ◌++◌, map,
  filter, take, ◌==◌, if◌then◌else◌,
}
use vektor.Common.Text.{Text, codes, text_eq, trim, is_empty, member}
use vektor.Common.Float.{FloatOps}
use vektor.Common.Int.{ℤ, pos}
use vektor.Common.Words.{saturating_mul}
use vektor.Common.Outcome.{Result, ok, err, ◌>>=◌, VektorError}
use vektor.Search.Types.{SearchMode, HybridResult, SearchResult, KeywordHit}
use vektor.Search.Weights
use vektor.Search.Weights.{AdaptiveWeights}
use vektor.Search.Rrf.{RankedId, FusedHit, rrf_fuse, rrf_k}
use vektor.Search.Synonyms

pub parse : Text → Result SearchMode
unfolding text_eq
parse mode =
    if text_eq mode (codes "hybrid")
    then ok SearchMode.hybrid
    else if text_eq mode (codes "semantic")
    then ok SearchMode.semantic
    else if text_eq mode (codes "keyword")
    then ok SearchMode.keyword
    else err (
        VektorError.config (
          codes "unsupported search mode `"
          ++ mode
          ++ codes "`; expected `hybrid`, `semantic`, or `keyword`"))

pub record HybridSearchConfig : Type 0 where
  pub mode : SearchMode
  pub top_k : ℕ
  pub filter : Option Text
  pub candidate_multiplier : ℕ
  pub max_candidates : ℕ

abbrev pub new : SearchMode → ℕ → HybridSearchConfig
new mode top_k = record {
  mode = mode;
  top_k = top_k;
  filter = none;
  candidate_multiplier = 4;
  max_candidates = 200;
}

pub candidate_limit : HybridSearchConfig → ℕ
candidate_limit config =
    if config.top_k == 0
    then 0
    else min (saturating_mul config.top_k (max config.candidate_multiplier 1))
        (max config.max_candidates config.top_k)

abbrev pub HydratedMap : Type 0 → Type 0
HydratedMap F = Text → Option (SearchResult F)

pub record SemanticRetriever (F : Type 0) : Type 0 where
  pub search_semantic : List F → ℕ → Option Text → Result (List (SearchResult F))
  pub hydrate_chunks_by_id : List Text → Result (HydratedMap F)

pub record KeywordRetriever (F : Type 0) : Type 0 where
  pub search_keyword : Text → ℕ → Result (List (KeywordHit F))

abbrev pub Embedder : Type 0 → Type 0
Embedder F = Text → Result (List F)

module _ {F : Type 0} where
  pub required_embedder : Option (Embedder F) → Result (Embedder F)
  required_embedder none =
      err (VektorError.config (codes "semantic or hybrid search requires an embedder"))
  required_embedder (some embedder) = ok embedder

  pub semantic_hits :
      Text → ℕ → Option Text → SemanticRetriever F → Embedder F → Result (List (SearchResult F))
  semantic_hits query top_k scope semantic embed_query = do
    query_vec ← embed_query query
    semantic.search_semantic query_vec top_k scope

  pub hydrate_keyword_content : List (KeywordHit F) → SemanticRetriever F → Result (HydratedMap F)
  hydrate_keyword_content keyword_hits semantic =
      semantic.hydrate_chunks_by_id (map (λ (hit : KeywordHit F). hit.chunk_id) keyword_hits)

  pub hydrate_missing_keyword_content :
      List (SearchResult F) → List (KeywordHit F) → SemanticRetriever F → Result (HydratedMap F)
  unfolding member
  hydrate_missing_keyword_content semantic_hits keyword_hits semantic =
      let semantic_by_id = map (λ (hit : SearchResult F). hit.id) semantic_hits in
      semantic.hydrate_chunks_by_id (
        map (λ (hit : KeywordHit F). hit.chunk_id)
          (filter (λ (hit : KeywordHit F). not (member hit.chunk_id semantic_by_id)) keyword_hits))

  pub keyword_hits : Text → ℕ → KeywordRetriever F → Result (List (KeywordHit F))
  keyword_hits query top_k keyword = keyword.search_keyword (Synonyms.expand query) top_k

  -- The maps by id that `collect` fills: of equal keys, the last entry stays.
  pub semantic_by_id : List (SearchResult F) → Text → Option (SearchResult F)
  unfolding text_eq
  semantic_by_id [] id = none
  semantic_by_id (hit ∷ hits) id = elim (semantic_by_id hits id) [
    | some later ↦ some later
    | none ↦ if text_eq hit.id id then some hit else none
  ]

  pub keyword_by_id : List (KeywordHit F) → Text → Option (KeywordHit F)
  unfolding text_eq
  keyword_by_id [] id = none
  keyword_by_id (hit ∷ hits) id = elim (keyword_by_id hits id) [
    | some later ↦ some later
    | none ↦ if text_eq hit.chunk_id id then some hit else none
  ]

  -- `keyword.map(|hit| hit.score)`.
  abbrev pub keyword_score_of : Option (KeywordHit F) → Option F
  keyword_score_of none = none
  keyword_score_of (some hit) = some hit.score

  -- A result with the fields of a stored row.
  abbrev pub stored_result : SearchResult F → F → Option F → Option F → HybridResult F
  stored_result hit relevance_score semantic_score keyword_score = record {
    chunk_id = hit.id;
    rel_path = hit.rel_path;
    start_line = hit.start_line;
    end_line = hit.end_line;
    symbol_name = hit.symbol_name;
    symbol_type = hit.symbol_type;
    language = hit.language;
    content = hit.content;
    relevance_score = relevance_score;
    semantic_score = semantic_score;
    keyword_score = keyword_score;
    last_modified = hit.last_modified;
  }

  -- A result with the fields of a keyword hit.
  abbrev pub keyword_row : KeywordHit F → Text → Option Text → Text → F → ℤ → HybridResult F
  keyword_row hit chunk_id symbol_type content relevance_score last_modified = record {
    chunk_id = chunk_id;
    rel_path = hit.rel_path;
    start_line = hit.start_line;
    end_line = hit.end_line;
    symbol_name = hit.symbol_name;
    symbol_type = symbol_type;
    language = hit.language;
    content = content;
    relevance_score = relevance_score;
    semantic_score = none;
    keyword_score = some hit.score;
    last_modified = last_modified;
  }

  pub keyword_result : KeywordHit F → Option (SearchResult F) → HybridResult F
  keyword_result hit none = keyword_row hit hit.chunk_id none hit.content hit.score (pos 0)
  keyword_result hit (some row) =
      keyword_row hit hit.chunk_id row.symbol_type row.content hit.score row.last_modified

  pub merged_result :
      Text
      → F
      → Option (SearchResult F)
      → Option (KeywordHit F)
      → Option (SearchResult F)
      → Option (HybridResult F)
  merged_result chunk_id score (some hit) keyword hydrated =
      some (stored_result hit score (some hit.score) (keyword_score_of keyword))
  merged_result chunk_id score none keyword (some hit) =
      some (stored_result hit score none (keyword_score_of keyword))
  merged_result chunk_id score none none none = none
  merged_result chunk_id score none (some hit) none =
      some (keyword_row hit chunk_id none [] score (pos 0))

  module _ ⦃f : FloatOps F⦄ where
    pub semantic_relevance : F → F
    semantic_relevance distance =
        let bounded =
          if f.is_finite distance then f.fmax distance (f.literal 0 1) else f.greatest in
        f.div (f.literal 1 1) (f.add (f.literal 1 1) bounded)

    pub semantic_result : SearchResult F → HybridResult F
    semantic_result hit = stored_result hit (semantic_relevance hit.score) (some hit.score) none

    -- `filter_map` of the fused hits.
    pub fused_results :
        List (SearchResult F)
        → List (KeywordHit F)
        → HydratedMap F
        → List (FusedHit F)
        → List (HybridResult F)
    fused_results semantic_hits keyword_hits hydrated [] = []
    fused_results semantic_hits keyword_hits hydrated (hit ∷ hits) =
        let rest = fused_results semantic_hits keyword_hits hydrated hits in
        elim (merged_result hit.chunk_id hit.score (semantic_by_id semantic_hits hit.chunk_id)
          (keyword_by_id keyword_hits hit.chunk_id) (hydrated hit.chunk_id)) [
            | none ↦ rest
            | some result ↦ result ∷ rest
          ]

    abbrev pub semantic_ranked : List (SearchResult F) → List RankedId
    semantic_ranked = map (λ (hit : SearchResult F). record { chunk_id = hit.id })

    abbrev pub keyword_ranked : List (KeywordHit F) → List RankedId
    keyword_ranked = map (λ (hit : KeywordHit F). record { chunk_id = hit.chunk_id })

    pub fuse_hits_with_weights :
        List (SearchResult F)
        → List (KeywordHit F)
        → HydratedMap F
        → AdaptiveWeights F
        → List (HybridResult F)
    fuse_hits_with_weights semantic_hits keyword_hits hydrated weights =
        fused_results semantic_hits keyword_hits hydrated
          (rrf_fuse (semantic_ranked semantic_hits) (keyword_ranked keyword_hits) rrf_k weights)

    pub search_semantic_only :
        Text
        → HybridSearchConfig
        → SemanticRetriever F
        → Embedder F
        → Result (List (HybridResult F))
    unfolding trim is_empty
    search_semantic_only query config store embedder =
        let trimmed = trim query in
        if is_empty trimmed then ok [] else if config.top_k == 0 then ok [] else (do
          hits ← semantic_hits trimmed config.top_k config.filter store embedder
          ok (map semantic_result (take config.top_k hits)))

    -- The three arms of the match on the mode.
    pub search_mode :
        SearchMode
        → Text
        → HybridSearchConfig
        → SemanticRetriever F
        → KeywordRetriever F
        → Option (Embedder F)
        → Result (List (HybridResult F))
    search_mode SearchMode.semantic query config semantic keyword embedder = do
      embed_query ← required_embedder embedder
      hits ← semantic_hits query config.top_k config.filter semantic embed_query
      ok (map semantic_result (take config.top_k hits))
    search_mode SearchMode.keyword query config semantic keyword embedder = do
      hits ← keyword_hits query config.top_k keyword
      hydrated ← hydrate_keyword_content hits semantic
      ok (
          map (λ (hit : KeywordHit F). keyword_result hit (hydrated hit.chunk_id))
            (take config.top_k hits))
    search_mode SearchMode.hybrid query config semantic keyword embedder = do
      embed_query ← required_embedder embedder
      semantic_found ←
          semantic_hits query (candidate_limit config) config.filter semantic embed_query
      keyword_found ← keyword_hits query (candidate_limit config) keyword
      hydrated ← hydrate_missing_keyword_content semantic_found keyword_found semantic
      ok (
          take config.top_k
            (fuse_hits_with_weights semantic_found keyword_found hydrated (Weights.compute query)))

    pub search_hybrid_with_optional_embedder :
        Text
        → HybridSearchConfig
        → SemanticRetriever F
        → KeywordRetriever F
        → Option (Embedder F)
        → Result (List (HybridResult F))
    unfolding trim is_empty
    search_hybrid_with_optional_embedder query config semantic keyword embedder =
        let trimmed = trim query in
        if is_empty trimmed
        then ok []
        else if config.top_k == 0
        then ok []
        else search_mode config.mode trimmed config semantic keyword embedder

    pub search_keyword_only :
        Text
        → HybridSearchConfig
        → SemanticRetriever F
        → KeywordRetriever F
        → Result (List (HybridResult F))
    search_keyword_only query config store text_index =
        search_hybrid_with_optional_embedder query (record config { mode = SearchMode.keyword })
          store text_index none

    -- `search_hybrid`, and `search_hybrid_with_retrievers`, which it calls.
    abbrev pub search_hybrid :
        Text
        → HybridSearchConfig
        → SemanticRetriever F
        → KeywordRetriever F
        → Embedder F
        → Result (List (HybridResult F))
    search_hybrid query config store text_index embedder =
        search_hybrid_with_optional_embedder query config store text_index (some embedder)
