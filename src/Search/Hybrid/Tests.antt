-- ===== src/Search/Hybrid/Tests.antt =====
-- Runs of src/search/hybrid.rs on retrievers that answer from fixed rows, scores in thousandths.
use vektor.Common.{ℕ, ◌≤◌, some, none, List, [], ◌∷◌, map, length, ◌≡◌, refl, arith, if◌then◌else◌}
use vektor.Common.Milli.{milli}
use vektor.Common.Text.{codes, text_eq, text_eq→eq}
use vektor.Common.Int.{pos}
use vektor.Common.Outcome.{ok, OnOk}
use vektor.Samples.{row, word_hit}
use vektor.Search.Types.{SearchMode, HybridResult, SearchResult, KeywordHit}
use vektor.Search.Weights
use vektor.Search.Rrf.{rrf_fuse, rrf_k}
use vektor.Search.Rrf.Fused.{IsFusion, rrf_fuse-IsFusion}
use vektor.Search.Hybrid.{
  parse, HybridSearchConfig, new, HydratedMap, SemanticRetriever, KeywordRetriever, Embedder,
  keyword_hits, keyword_result, semantic_result, semantic_relevance, fuse_hits_with_weights,
  semantic_ranked, keyword_ranked, search_hybrid_with_optional_embedder,
}
use vektor.Search.Hybrid.Limits.{strict_semantic, strict_keyword, search_hybrid-limits}
use vektor.Search.Hybrid.Queries.{length-search_hybrid}
use vektor.Search.Hybrid.Fusion.{IsKeyed, result_key, hit_key, fuse_hits-eq-rrf_fuse}

parse_keyword : parse (codes "keyword") ≡ ok SearchMode.keyword
unfolding parse text_eq
parse_keyword = refl

-- A distance of 1 is a relevance of a half.
half_relevant : (semantic_result (row (codes "a") (codes "a.rs") 1000)).relevance_score ≡ 500
unfolding semantic_result semantic_relevance
half_relevant = refl

unhydrated : (keyword_result (word_hit (codes "a") (codes "a.rs") 700) none).last_modified ≡ pos 0
unfolding keyword_result
unhydrated = refl

abbrev rows : List (SearchResult ℕ)
rows = row (codes "a") (codes "a.rs") 100 ∷ row (codes "b") (codes "b.rs") 200 ∷ []

abbrev words : List (KeywordHit ℕ)
words = word_hit (codes "b") (codes "b.rs") 900 ∷ word_hit (codes "c") (codes "c.rs") 800 ∷ []

abbrev stored : HydratedMap ℕ
stored id = if text_eq (codes "c") id then some (row (codes "c") (codes "c.rs") 0) else none

abbrev semantic : SemanticRetriever ℕ
semantic = record {
  search_semantic = λ v k filter. ok rows;
  hydrate_chunks_by_id = λ ids. ok stored;
}

abbrev keyword : KeywordRetriever ℕ
keyword = record { search_keyword = λ query k. ok words }

one_page : keyword_hits (codes "zig") 5 keyword ≡ ok words
unfolding keyword_hits
one_page = refl

abbrev embedder : Embedder ℕ
embedder = λ text. ok (length text ∷ [])

abbrev top_two : HybridSearchConfig
top_two = new SearchMode.hybrid 2

stored-IsKeyed : IsKeyed stored
stored-IsKeyed id r h = ground (arith, text_eq→eq (codes "c") id)

search_hybrid-limits_example :
    search_hybrid_with_optional_embedder
      (codes "run")
      top_two
      (strict_semantic top_two semantic)
      (strict_keyword top_two keyword)
      (some embedder)
    ≡ search_hybrid_with_optional_embedder (codes "run") top_two semantic keyword (some embedder)
search_hybrid-limits_example =
    search_hybrid-limits (codes "run") top_two semantic keyword (some embedder) (omega arith)

length-search_hybrid_example :
    OnOk
      (λ (results : List (HybridResult ℕ)). length results ≤ 2)
      (search_hybrid_with_optional_embedder (codes "run") top_two semantic keyword (some embedder))
length-search_hybrid_example =
    length-search_hybrid (codes "run") top_two semantic keyword (some embedder)

rrf_fuse-IsFusion_example :
    IsFusion {F = ℕ}
      (semantic_ranked rows)
      (keyword_ranked words)
      (rrf_fuse (semantic_ranked rows) (keyword_ranked words) 60 Weights.mixed)
rrf_fuse-IsFusion_example =
    rrf_fuse-IsFusion (semantic_ranked rows) (keyword_ranked words) 60 Weights.mixed

fuse_hits-eq-rrf_fuse_example :
    map result_key (fuse_hits_with_weights rows words stored Weights.mixed)
    ≡ map hit_key (rrf_fuse (semantic_ranked rows) (keyword_ranked words) rrf_k Weights.mixed)
fuse_hits-eq-rrf_fuse_example = fuse_hits-eq-rrf_fuse rows words stored stored-IsKeyed Weights.mixed
