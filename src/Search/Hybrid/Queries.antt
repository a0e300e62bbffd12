-- ===== src/Search/Hybrid/Queries.antt =====
-- How many results the entry points of src/search/hybrid.rs return in each mode.
use vektor.Common.{
  ℕ, ◌≤◌, Option, List, [], map, take, length, ◌≡◌, sym, arith, length-take, length-map, ◌==◌,
  Bool-cases, inl, inr,
}
use vektor.Common.Text.{Text, trim, is_empty}
use vektor.Common.Float.{FloatOps}
use vektor.Common.Outcome.{Result, ok, err, ◌>>=◌, OnOk, OnOk-of}
use vektor.Search.Types.{SearchMode}
use vektor.Search.Hybrid.{
  HybridSearchConfig, candidate_limit, SemanticRetriever, KeywordRetriever, Embedder,
  required_embedder, semantic_hits, keyword_hits, hydrate_keyword_content,
  hydrate_missing_keyword_content, search_mode, search_hybrid_with_optional_embedder,
}

-- A list, where there is one, has at most `n` elements.
record AtMost {A : Type 0} (n : ℕ) (m : Result (List A)) : Type 0 where
  bounded : (xs : List A) → m ≡ ok xs → length xs ≤ n

ok-AtMost : {A : Type 0} (n : ℕ) (xs : List A) → length xs ≤ n → AtMost n (ok xs)
ok-AtMost n xs h = record { bounded = λ ys e. let same : xs ≡ ys = cc in rw (sym same) h }

>>=-AtMost :
    {A : Type 0} {B : Type 0} (n : ℕ) (m : Result A) (g : A → Result (List B))
    → ((a : A) → AtMost n (g a))
    → AtMost n (m >>= g)
>>=-AtMost n (ok a) g h = h a
>>=-AtMost n (err e) g h = record { bounded = λ ys k. cc }

length-take_le : {A : Type 0} (n : ℕ) (xs : List A) → length (take n xs) ≤ n
length-take_le n xs = rw (length-take n xs) (omega arith)

length-map-take :
    {A : Type 0} {B : Type 0} (n : ℕ) (xs : List A) (g : A → B) → length (map g (take n xs)) ≤ n
length-map-take n xs g = rw (length-map (take n xs) g) (length-take_le n xs)

module _ {F : Type 0} ⦃f : FloatOps F⦄ where
  search_mode-AtMost :
      (mode : SearchMode) (query : Text) (config : HybridSearchConfig)
      (semantic : SemanticRetriever F) (keyword : KeywordRetriever F) (e : Option (Embedder F))
      → AtMost config.top_k (search_mode mode query config semantic keyword e)
  unfolding search_mode
  search_mode-AtMost SearchMode.semantic query config semantic keyword e =
      >>=-AtMost config.top_k (required_embedder e) _ (λ embed.
        >>=-AtMost config.top_k (semantic_hits query config.top_k config.filter semantic embed) _
          (λ hits. ok-AtMost _ _ (length-map-take _ hits _)))
  search_mode-AtMost SearchMode.keyword query config semantic keyword e =
      >>=-AtMost config.top_k (keyword_hits query config.top_k keyword) _ (λ hits.
        >>=-AtMost config.top_k (hydrate_keyword_content hits semantic) _
          (λ rows. ok-AtMost _ _ (length-map-take _ hits _)))
  search_mode-AtMost SearchMode.hybrid query config semantic keyword e =
      let limit = candidate_limit config in
      >>=-AtMost config.top_k (required_embedder e) _ (λ embed.
        >>=-AtMost config.top_k (semantic_hits query limit config.filter semantic embed) _ (λ found.
          >>=-AtMost config.top_k (keyword_hits query limit keyword) _ (λ words.
            >>=-AtMost config.top_k (hydrate_missing_keyword_content found words semantic) _
              (λ rows. ok-AtMost _ _ (length-take_le _ _)))))

  search-AtMost :
      (query : Text) (config : HybridSearchConfig) (semantic : SemanticRetriever F)
      (keyword : KeywordRetriever F) (e : Option (Embedder F))
      → AtMost config.top_k (search_hybrid_with_optional_embedder query config semantic keyword e)
  unfolding search_hybrid_with_optional_embedder
  search-AtMost query config semantic keyword e = elim (Bool-cases (is_empty (trim query))) [
    | inl blank ↦ rw blank (ok-AtMost _ [] (omega arith))
    | inr some_text ↦ elim (Bool-cases (config.top_k == 0)) [
      | inl z ↦ rw (some_text, z) (ok-AtMost _ [] (omega arith))
      | inr nz ↦
          rw (some_text, nz) (search_mode-AtMost config.mode (trim query) config semantic keyword e)
    ]
  ]

  -- Whatever the mode and whatever the retrievers give, a search that succeeds returns at most
  -- `top_k` results.
  pub length-search_hybrid :
      (query : Text) (config : HybridSearchConfig) (semantic : SemanticRetriever F)
      (keyword : KeywordRetriever F) (e : Option (Embedder F))
      → OnOk
          (λ results. length results ≤ config.top_k)
          (search_hybrid_with_optional_embedder query config semantic keyword e)
  length-search_hybrid query config semantic keyword e =
      OnOk-of (λ results. length results ≤ config.top_k)
        (search_hybrid_with_optional_embedder query config semantic keyword e)
        (search-AtMost query config semantic keyword e).bounded
