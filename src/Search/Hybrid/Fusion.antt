-- ===== src/Search/Hybrid/Fusion.antt =====
-- What src/search/hybrid.rs makes of the fused hits.
use vektor.Common.{
  Option, some, none, List, [], ◌∷◌, map, ◌≡◌, refl, arith, Option-cases, inl, inr, ◌⊎◌, All,
}
use vektor.Common.Text.{Text, text_eq→eq, eq→text_eq}
use vektor.Common.Float.{FloatOps}
use vektor.Search.Types.{HybridResult, SearchResult, KeywordHit}
use vektor.Search.Weights.{AdaptiveWeights}
use vektor.Search.Rrf.{FusedHit, rrf_fuse, rrf_k}
use vektor.Search.Rrf.Fused.{IsRanked, rrf_fuse-IsFusion}
use vektor.Search.Hybrid.{
  HydratedMap, semantic_by_id, keyword_by_id, merged_result, fused_results, fuse_hits_with_weights,
  semantic_ranked, keyword_ranked,
}

module _ {F : Type 0} where
  -- The store answers for an id with the row of that id.
  abbrev pub IsKeyed : HydratedMap F → Type 0
  IsKeyed hydrated = (id : Text) (row : SearchResult F) → hydrated id ≡ some row → row.id ≡ id

  semantic_by_id-key :
      (hits : List (SearchResult F)) (id : Text) (hit : SearchResult F)
      → semantic_by_id hits id ≡ some hit
      → hit.id ≡ id
  unfolding semantic_by_id
  semantic_by_id-key [] id hit h = cc
  semantic_by_id-key (x ∷ hits) id hit h =
      ground (arith, semantic_by_id-key hits id hit, text_eq→eq x.id id)

  semantic_by_id-found :
      (hits : List (SearchResult F)) (id : Text)
      → semantic_by_id hits id ≡ none
      → IsRanked (map (λ (hit : SearchResult F). record { chunk_id = hit.id }) hits) id
      → ⊥
  unfolding semantic_by_id
  semantic_by_id-found [] id h k = k
  semantic_by_id-found (x ∷ hits) id h (inl e) = ground (arith, eq→text_eq x.id id e)
  semantic_by_id-found (x ∷ hits) id h (inr k) = semantic_by_id-found hits id (ground arith) k

  keyword_by_id-found :
      (hits : List (KeywordHit F)) (id : Text)
      → keyword_by_id hits id ≡ none
      → IsRanked (map (λ (hit : KeywordHit F). record { chunk_id = hit.chunk_id }) hits) id
      → ⊥
  unfolding keyword_by_id
  keyword_by_id-found [] id h k = k
  keyword_by_id-found (x ∷ hits) id h (inl e) = ground (arith, eq→text_eq x.chunk_id id e)
  keyword_by_id-found (x ∷ hits) id h (inr k) = keyword_by_id-found hits id (ground arith) k

  abbrev pub result_key : HybridResult F → Text × F
  result_key r = (r.chunk_id, r.relevance_score)

  abbrev pub hit_key : FusedHit F → Text × F
  hit_key h = (h.chunk_id, h.score)

  -- There is a result, with this id and this score.
  abbrev Carries : Text → F → Option (HybridResult F) → Type 0
  Carries id score none = ⊥
  Carries id score (some r) = (r.chunk_id ≡ id) × (r.relevance_score ≡ score)

  carried :
      (o : Option (HybridResult F)) (hits : List (FusedHit F)) (h : FusedHit F)
      (rest : List (HybridResult F))
      → Carries h.chunk_id h.score o
      → map result_key rest ≡ map hit_key hits
      → map result_key (elim o [ none ↦ rest | some r ↦ r ∷ rest ]) ≡ map hit_key (h ∷ hits)
  carried none hits h rest c e = elim c [ ]
  carried (some r) hits h rest c e = rw (c.0, c.1, e) refl

  module _ (semantic : List (SearchResult F)) (keyword : List (KeywordHit F))
      (hydrated : HydratedMap F) (keyed : IsKeyed hydrated) where
    abbrev Known : Text → Type 0
    Known id =
        IsRanked (map (λ (hit : SearchResult F). record { chunk_id = hit.id }) semantic) id
        ⊎ IsRanked (map (λ (hit : KeywordHit F). record { chunk_id = hit.chunk_id }) keyword) id

    -- A known id has a result, with that id and the score it is given.
    merged-Known :
        (id : Text) (score : F)
        → Known id
        → Carries id score (
            merged_result id score
              (semantic_by_id semantic id)
              (keyword_by_id keyword id)
              (hydrated id))
    unfolding merged_result
    merged-Known id score known = elim (Option-cases (semantic_by_id semantic id)) [
      | inr (hit, e) ↦ rw e (semantic_by_id-key semantic id hit e, refl)
      | inl no_row ↦ elim (Option-cases (hydrated id)) [
        | inr (row, e) ↦ rw (no_row, e) (keyed id row e, refl)
        | inl no_stored ↦ elim (Option-cases (keyword_by_id keyword id)) [
          | inr (hit, e) ↦ rw (no_row, no_stored, e) (refl, refl)
          | inl no_hit ↦ elim known [
            | inl k ↦ absurd (semantic_by_id-found semantic id no_row k)
            | inr k ↦ absurd (keyword_by_id-found keyword id no_hit k)
          ]
        ]
      ]
    ]

    module _ ⦃f : FloatOps F⦄ where
      fused_results-Known :
          (hits : List (FusedHit F))
          → All (λ (h : FusedHit F). Known h.chunk_id) hits
          → map result_key (fused_results semantic keyword hydrated hits) ≡ map hit_key hits
      unfolding fused_results
      fused_results-Known [] known = refl
      fused_results-Known (h ∷ hits) known =
          carried _ hits h _ (merged-Known h.chunk_id h.score known.0)
            (fused_results-Known hits known.1)

      -- Where the store answers for an id with the row of that id, the merged results are the fused
      -- hits, in their order and with their scores: none is dropped for want of content.
      pub fuse_hits-eq-rrf_fuse :
          (weights : AdaptiveWeights F)
          → map result_key (fuse_hits_with_weights semantic keyword hydrated weights)
            ≡ map hit_key
                (rrf_fuse (semantic_ranked semantic) (keyword_ranked keyword) rrf_k weights)
      unfolding fuse_hits_with_weights
      fuse_hits-eq-rrf_fuse weights =
          fused_results-Known _
            (rrf_fuse-IsFusion (semantic_ranked semantic) (keyword_ranked keyword) rrf_k
              weights).sound
