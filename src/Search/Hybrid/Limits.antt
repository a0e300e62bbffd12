-- ===== src/Search/Hybrid/Limits.antt =====
-- What src/search/hybrid.rs asks its retrievers for.
use vektor.Common.{
  Bool, true, ◌&&◌, leb, ap, if◌then◌else◌, ℕ, ◌*◌, ◌≤◌, max, Option, List, [], map, take, ◌≡◌,
  refl, arith,
}
use native.Mathlib.Nat
use vektor.Common.Text.{Text, trim}
use vektor.Common.Float.{FloatOps}
use vektor.Common.Words.{u64_max}
use vektor.Common.Outcome.{VektorError, Result, ok, err, ◌>>=◌}
use vektor.Search.Types.{SearchMode, SearchResult}
use vektor.Search.Weights
use vektor.Search.Hybrid.{
  fuse_hits_with_weights, semantic_result, HybridSearchConfig, candidate_limit, SemanticRetriever,
  KeywordRetriever, Embedder, required_embedder, semantic_hits, keyword_hits,
  hydrate_keyword_content, hydrate_missing_keyword_content, search_mode,
  search_hybrid_with_optional_embedder,
}

-- What the candidate limit is between.
candidate_limit-bounds :
    (config : HybridSearchConfig)
    → config.top_k ≤ u64_max
    → (config.top_k ≤ candidate_limit config)
      × (candidate_limit config ≤ config.top_k * max config.candidate_multiplier 1)
      × (candidate_limit config ≤ max config.max_candidates config.top_k)
unfolding candidate_limit
candidate_limit-bounds config h =
    let k = config.top_k in
    let m = config.candidate_multiplier in
    let grows : k ≤ k * max m 1 = grow k (max m 1) (omega arith) in ground arith
  where
    grow : (k m : ℕ) → 1 ≤ m → k ≤ k * m
    grow k m h = omega (arith, Nat.mul-le-mul_left k h)

-- The limits that a search may ask a retriever for.
abbrev in_range : HybridSearchConfig → ℕ → Bool
in_range config n =
    leb config.top_k n
    && (leb n (config.top_k * max config.candidate_multiplier 1)
        && leb n (max config.max_candidates config.top_k))

candidate_limit-in_range :
    (config : HybridSearchConfig)
    → config.top_k ≤ u64_max
    → in_range config (candidate_limit config) ≡ true
candidate_limit-in_range config h =
    let (low, product, cap) = candidate_limit-bounds config h in ground arith

top_k-in_range : (config : HybridSearchConfig) → in_range config config.top_k ≡ true
top_k-in_range config =
    let k = config.top_k in
    let m = max config.candidate_multiplier 1 in
    let grows : k ≤ k * m =
      omega (arith, Nat.mul-le-mul_left k (one_le config.candidate_multiplier)) in
    ground arith
  where
    one_le : (m : ℕ) → 1 ≤ max m 1
    one_le m = omega arith

module _ {F : Type 0} ⦃f : FloatOps F⦄ where
  -- Retrievers that refuse every other limit.
  abbrev pub strict_semantic : HybridSearchConfig → SemanticRetriever F → SemanticRetriever F
  strict_semantic config semantic = record semantic {
    search_semantic = λ query_vec n scope.
        if in_range config n
        then semantic.search_semantic query_vec n scope
        else err (VektorError.storage []);
  }

  abbrev pub strict_keyword : HybridSearchConfig → KeywordRetriever F → KeywordRetriever F
  strict_keyword config keyword = record {
    search_keyword = λ query n.
        if in_range config n then keyword.search_keyword query n else err (VektorError.storage []);
  }

  semantic_hits_strict :
      (query : Text) (config : HybridSearchConfig) (n : ℕ) (scope : Option Text)
      (semantic : SemanticRetriever F) (embed : Embedder F)
      → in_range config n ≡ true
      → semantic_hits query n scope (strict_semantic config semantic) embed
        ≡ semantic_hits query n scope semantic embed
  unfolding semantic_hits
  semantic_hits_strict query config n scope semantic embed e = rw e refl

  keyword_hits_strict :
      (query : Text) (config : HybridSearchConfig) (n : ℕ) (keyword : KeywordRetriever F)
      → in_range config n ≡ true
      → keyword_hits query n (strict_keyword config keyword) ≡ keyword_hits query n keyword
  unfolding keyword_hits
  keyword_hits_strict query config n keyword e = rw e refl

  search_mode_strict :
      (mode : SearchMode) (query : Text) (config : HybridSearchConfig)
      (semantic : SemanticRetriever F) (keyword : KeywordRetriever F) (e : Option (Embedder F))
      → config.top_k ≤ u64_max
      → search_mode mode query config
          (strict_semantic config semantic)
          (strict_keyword config keyword)
          e
        ≡ search_mode mode query config semantic keyword e
  unfolding search_mode hydrate_keyword_content hydrate_missing_keyword_content
  search_mode_strict SearchMode.semantic query config semantic keyword e h =
      ap
        (λ (hits : Embedder F → Result (List (SearchResult F))). required_embedder e >>= λ embed.
          hits embed >>= λ found. ok (map semantic_result (take config.top_k found)))
        (λ i embed.
          semantic_hits_strict query config config.top_k config.filter semantic embed
            (top_k-in_range config) i)
  search_mode_strict SearchMode.keyword query config semantic keyword e h =
      rw (keyword_hits_strict query config config.top_k keyword (top_k-in_range config)) refl
  search_mode_strict SearchMode.hybrid query config semantic keyword e h =
      let limit = candidate_limit config in
      let ranged = candidate_limit-in_range config h in
      rw (keyword_hits_strict query config limit keyword ranged) (
        ap
          (λ (hits : Embedder F → Result (List (SearchResult F))). required_embedder e >>= λ embed.
            hits embed >>= λ found. keyword_hits query limit keyword >>= λ words.
            hydrate_missing_keyword_content found words semantic >>= λ hydrated. ok (
              take config.top_k
                (fuse_hits_with_weights found words hydrated (Weights.compute query))))
          (λ i embed.
            semantic_hits_strict query config limit config.filter semantic embed ranged i))

  -- In every mode, and for a `top_k` that fits in 64 bits, a search asks its retrievers for at least
  -- `top_k` candidates, for no more than `top_k` times the multiplier, or `top_k` where that is 0, and
  -- for no more than the cap unless `top_k` exceeds it: retrievers that refuse every other request
  -- give the same search.
  pub search_hybrid-limits :
      (query : Text) (config : HybridSearchConfig) (semantic : SemanticRetriever F)
      (keyword : KeywordRetriever F) (e : Option (Embedder F))
      → config.top_k ≤ u64_max
      → search_hybrid_with_optional_embedder query config
          (strict_semantic config semantic)
          (strict_keyword config keyword)
          e
        ≡ search_hybrid_with_optional_embedder query config semantic keyword e
  unfolding search_hybrid_with_optional_embedder
  search_hybrid-limits query config semantic keyword e h =
      rw (search_mode_strict config.mode (trim query) config semantic keyword e h) refl
