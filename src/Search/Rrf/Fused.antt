-- ===== src/Search/Rrf/Fused.antt =====
-- Which ids src/search/rrf.rs fuses.
use vektor.Common.{
  ℕ, suc, List, [], ◌∷◌, map, ◌≡◌, ◌≢◌, refl, sym, inl, inr, ◌⊎◌, All, Any, Pairwise, All-imp,
  All-map, Any-map, Bool-cases, arith,
}
use vektor.Common.Text.{Text, text_eq, text_eq→eq, eq→text_eq}
use vektor.Common.Sort.{sort_by, All-sort_by, Any-sort_by, sort_by-Pairwise}
use vektor.Common.Float.{FloatOps}
use vektor.Search.Weights.{AdaptiveWeights}
use vektor.Search.Rrf.{
  RankedId, FusedHit, add_score, add_rrf_scores_from, add_rrf_scores, by_fused_score, fused_hit,
  rrf_fuse,
}

abbrev pub IsRanked : List RankedId → Text → Type 0
IsRanked ranked id = Any (λ (r : RankedId). r.chunk_id ≡ id) ranked

IsRanked-self : (r : List RankedId) → All (λ (x : RankedId). IsRanked r x.chunk_id) r
IsRanked-self [] = tt
IsRanked-self (x ∷ r) = (
  inl refl,
  All-imp (λ (y : RankedId). IsRanked r y.chunk_id) (λ (y : RankedId). IsRanked (x ∷ r) y.chunk_id)
      (λ y. inr) r (IsRanked-self r),
)

module _ {F : Type 0} where
  abbrev pub IsHit : List (FusedHit F) → Text → Type 0
  IsHit hits id = Any (λ (h : FusedHit F). h.chunk_id ≡ id) hits

  -- The hits of a fusion are the ids of the two lists, and no id has two hits.
  pub record IsFusion (semantic keyword : List RankedId) (hits : List (FusedHit F)) : Type 0 where
    pub sound :
        All (λ (h : FusedHit F). IsRanked semantic h.chunk_id ⊎ IsRanked keyword h.chunk_id) hits
    pub semantic_kept : All (λ (r : RankedId). IsHit hits r.chunk_id) semantic
    pub keyword_kept : All (λ (r : RankedId). IsHit hits r.chunk_id) keyword
    pub distinct : Pairwise (λ (a b : FusedHit F). a.chunk_id ≢ b.chunk_id) hits

  abbrev HasKey : Text → List (Text × F) → Type 0
  HasKey id = Any (λ (e : Text × F). e.0 ≡ id)

  abbrev Apart : Text × F → Text × F → Type 0
  Apart a b = a.0 ≢ b.0

  module _ ⦃f : FloatOps F⦄ where
    add_score-old :
        (i j : Text) (x : F) (l : List (Text × F)) → HasKey j l → HasKey j (add_score i x l)
    unfolding add_score
    add_score-old i j x [] h = elim h [ ]
    add_score-old i j x (e ∷ l) (inl h) = elim (Bool-cases (text_eq e.0 i)) [
      | inl same ↦ rw same (inl h)
      | inr other ↦ rw other (inl h)
    ]
    add_score-old i j x (e ∷ l) (inr h) = elim (Bool-cases (text_eq e.0 i)) [
      | inl same ↦ rw same (inr h)
      | inr other ↦ rw other (inr (add_score-old i j x l h))
    ]

    add_score-new : (i : Text) (x : F) (l : List (Text × F)) → HasKey i (add_score i x l)
    unfolding add_score
    add_score-new i x [] = inl refl
    add_score-new i x (e ∷ l) = elim (Bool-cases (text_eq e.0 i)) [
      | inl same ↦ rw same (inl (text_eq→eq e.0 i same))
      | inr other ↦ rw other (inr (add_score-new i x l))
    ]

    add_score-All :
        (P : Text → Type 0) (i : Text) (x : F) (l : List (Text × F))
        → P i
        → All (λ (e : Text × F). P e.0) l
        → All (λ (e : Text × F). P e.0) (add_score i x l)
    unfolding add_score
    add_score-All P i x [] p h = (p, tt)
    add_score-All P i x (e ∷ l) p h = elim (Bool-cases (text_eq e.0 i)) [
      | inl same ↦ rw same h
      | inr other ↦ rw other (h.0, add_score-All P i x l p h.1)
    ]

    add_score-Pairwise :
        (i : Text) (x : F) (l : List (Text × F))
        → Pairwise Apart l
        → Pairwise Apart (add_score i x l)
    unfolding add_score
    add_score-Pairwise i x [] h = (tt, tt)
    add_score-Pairwise i x (e ∷ l) h = elim (Bool-cases (text_eq e.0 i)) [
      | inl same ↦ rw same h
      | inr other ↦ rw other (
        add_score-All (λ t. e.0 ≢ t) i x l (λ same. absurd (ground (arith, eq→text_eq e.0 i same)))
            h.0,
        add_score-Pairwise i x l h.1,
      )
    ]

    -- What a round of the loop keeps, for all the rounds.
    scores-old :
        (j : Text) (n : ℕ) (l : List (Text × F)) (r : List RankedId) (k : ℕ) (w : F)
        → HasKey j l
        → HasKey j (add_rrf_scores_from n l r k w)
    unfolding add_rrf_scores_from
    scores-old j n l [] k w h = h
    scores-old j n l (x ∷ r) k w h = scores-old j (suc n) _ r k w (add_score-old x.chunk_id j _ l h)

    scores-new :
        (n : ℕ) (l : List (Text × F)) (r : List RankedId) (k : ℕ) (w : F)
        → All (λ (x : RankedId). HasKey x.chunk_id (add_rrf_scores_from n l r k w)) r
    unfolding add_rrf_scores_from
    scores-new n l [] k w = tt
    scores-new n l (x ∷ r) k w = (
      scores-old x.chunk_id (suc n) _ r k w (add_score-new x.chunk_id _ l),
      scores-new (suc n) _ r k w,
    )

    scores-All :
        (P : Text → Type 0) (n : ℕ) (l : List (Text × F)) (r : List RankedId) (k : ℕ) (w : F)
        → All (λ (x : RankedId). P x.chunk_id) r
        → All (λ (e : Text × F). P e.0) l
        → All (λ (e : Text × F). P e.0) (add_rrf_scores_from n l r k w)
    unfolding add_rrf_scores_from
    scores-All P n l [] k w p h = h
    scores-All P n l (x ∷ r) k w p h =
        scores-All P (suc n) _ r k w p.1 (add_score-All P x.chunk_id _ l p.0 h)

    scores-Pairwise :
        (n : ℕ) (l : List (Text × F)) (r : List RankedId) (k : ℕ) (w : F)
        → Pairwise Apart l
        → Pairwise Apart (add_rrf_scores_from n l r k w)
    unfolding add_rrf_scores_from
    scores-Pairwise n l [] k w h = h
    scores-Pairwise n l (x ∷ r) k w h =
        scores-Pairwise (suc n) _ r k w (add_score-Pairwise x.chunk_id _ l h)

    map-Pairwise :
        (l : List (Text × F))
        → Pairwise Apart l
        → Pairwise (λ (a b : FusedHit F). a.chunk_id ≢ b.chunk_id) (map fused_hit l)
    map-Pairwise [] h = tt
    map-Pairwise (e ∷ l) h =
        (All-map (λ (b : FusedHit F). e.0 ≢ b.chunk_id) fused_hit l h.0, map-Pairwise l h.1)

    sorted_hits :
        (l : List (Text × F)) (id : Text)
        → HasKey id l
        → IsHit (sort_by by_fused_score (map fused_hit l)) id
    sorted_hits l id h =
        Any-sort_by by_fused_score (λ (x : FusedHit F). x.chunk_id ≡ id) (map fused_hit l)
          (Any-map (λ (x : FusedHit F). x.chunk_id ≡ id) fused_hit l h)

    -- `rrf_fuse` gives one hit for every id of either list, none twice, and no other hit.
    pub rrf_fuse-IsFusion :
        (semantic keyword : List RankedId) (k : ℕ) (w : AdaptiveWeights F)
        → IsFusion semantic keyword (rrf_fuse semantic keyword k w)
    unfolding rrf_fuse add_rrf_scores
    rrf_fuse-IsFusion semantic keyword k w =
        let first = add_rrf_scores_from 0 [] semantic k w.semantic in
        let both = add_rrf_scores_from 0 first keyword k w.keyword in
        let P : Text → Type 0 = λ t. IsRanked semantic t ⊎ IsRanked keyword t in
        record {
          sound =
              All-sort_by by_fused_score (λ (h : FusedHit F). P h.chunk_id) (map fused_hit both)
                (All-map (λ (h : FusedHit F). P h.chunk_id) fused_hit both
                  (scores-All P 0 first keyword k w.keyword
                    (All-imp (λ (x : RankedId). IsRanked keyword x.chunk_id)
                      (λ (x : RankedId). P x.chunk_id) (λ x. inr) keyword (IsRanked-self keyword))
                    (scores-All P 0 [] semantic k w.semantic
                      (All-imp (λ (x : RankedId). IsRanked semantic x.chunk_id)
                        (λ (x : RankedId). P x.chunk_id) (λ x. inl) semantic
                        (IsRanked-self semantic))
                      tt)));
          semantic_kept =
              All-imp (λ (x : RankedId). HasKey x.chunk_id first) _
                (λ x h.
                  sorted_hits both x.chunk_id (scores-old x.chunk_id 0 first keyword k w.keyword h))
                semantic (scores-new 0 [] semantic k w.semantic);
          keyword_kept =
              All-imp (λ (x : RankedId). HasKey x.chunk_id both) _
                (λ x h. sorted_hits both x.chunk_id h) keyword
                (scores-new 0 first keyword k w.keyword);
          distinct =
              sort_by-Pairwise by_fused_score (λ (a b : FusedHit F). a.chunk_id ≢ b.chunk_id)
                (λ a b n e. n (sym e)) (map fused_hit both)
                (map-Pairwise both (
                  scores-Pairwise 0 first keyword k w.keyword
                    (scores-Pairwise 0 [] semantic k w.semantic tt)));
        }
