-- ===== src/Context/Dedup/Coverage.antt =====
-- What `deduplicate` of src/context/dedup.rs keeps of its input.
use vektor.Common.{
  ℕ, suc, ◌≤◌, true, false, Option, some, none, List, [], ◌∷◌, ◌++◌, map, ◌≡◌, refl, ◌∙◌, sym, inl,
  inr, Bool-cases, All, Any, All-imp, All-self, Any-map, Any-append_left, Any-append_right, arith,
  enumerate_from,
}
use vektor.Common.Text.{text_eq→eq}
use vektor.Common.Sort.{precedes, Any-sort_by, sort_by}
use vektor.Common.Float.{FloatOps, IsTotalOrder}
use vektor.Search.Types.{HybridResult}
use vektor.Context.Dedup.{
  DedupCandidate, should_merge, should_replace, merge_into, merge_runs, candidates, deduplicate,
  by_place, by_index,
}

module _ {F : Type 0} ⦃f : FloatOps F⦄ where
  -- `b` has the file of `a`, all its lines, and at least its score.
  pub record Covers (a b : HybridResult F) : Type 0 where
    pub file : a.rel_path ≡ b.rel_path
    pub first : b.start_line ≤ a.start_line
    pub last : a.end_line ≤ b.end_line
    pub relevance : precedes f.total_cmp a.relevance_score b.relevance_score ≡ true

  module _ (law : IsTotalOrder f.total_cmp) where
    total_refl : (x : F) → precedes f.total_cmp x x ≡ true
    total_refl x = elim (Bool-cases (precedes f.total_cmp x x)) [
      | inl e ↦ e
      | inr e ↦ law.total x x e
    ]

    Covers-refl : (a : HybridResult F) → Covers a a
    Covers-refl a = record {
      file = refl;
      first = omega arith;
      last = omega arith;
      relevance = total_refl a.relevance_score;
    }

    Covers-trans : (a b c : HybridResult F) → Covers a b → Covers b c → Covers a c
    Covers-trans a b c p q = record {
      file = p.file ∙ q.file;
      first = omega arith;
      last = omega arith;
      relevance = law.trans _ _ _ p.relevance q.relevance;
    }

    merge_same_file : (a c : HybridResult F) → should_merge a c ≡ true → a.rel_path ≡ c.rel_path
    unfolding should_merge
    merge_same_file a c h = ground (arith, text_eq→eq a.rel_path c.rel_path)

    replaced_score :
        (a c : HybridResult F)
        → should_replace a c ≡ true
        → precedes f.total_cmp a.relevance_score c.relevance_score ≡ true
    unfolding should_replace
    replaced_score a c h = ground (
      arith,
      law.total c.relevance_score a.relevance_score,
      law.eq_symm c.relevance_score a.relevance_score,
    )

    kept_score :
        (a c : HybridResult F)
        → should_replace a c ≡ false
        → precedes f.total_cmp c.relevance_score a.relevance_score ≡ true
    unfolding should_replace
    kept_score a c h = ground arith

    -- A merge covers both its parts.
    merge_into-Covers :
        (a c : DedupCandidate F)
        → should_merge a.chunk c.chunk ≡ true
        → Covers a.chunk (merge_into a c).chunk × Covers c.chunk (merge_into a c).chunk
    unfolding merge_into
    merge_into-Covers a c h =
        let same = merge_same_file a.chunk c.chunk h in
        elim (Bool-cases (should_replace a.chunk c.chunk)) [
          | inl e ↦ rw e (
            record {
              file = same;
              first = omega arith;
              last = omega arith;
              relevance = replaced_score a.chunk c.chunk e;
            },
            record {
              file = refl;
              first = omega arith;
              last = omega arith;
              relevance = total_refl _;
            },
          )
          | inr e ↦ rw e (
            record {
              file = refl;
              first = omega arith;
              last = omega arith;
              relevance = total_refl _;
            },
            record {
              file = sym same;
              first = omega arith;
              last = omega arith;
              relevance = kept_score a.chunk c.chunk e;
            },
          )
        ]

    module _ (c : HybridResult F) where
      abbrev Kept : DedupCandidate F → Type 0
      Kept d = Covers c d.chunk

      -- What is merged stays; what the current chunk covers is covered at the end.
      runs_merged :
          (rest merged : List (DedupCandidate F)) (current : Option (DedupCandidate F))
          → Any Kept merged
          → Any Kept (merge_runs rest merged current)
      unfolding merge_runs
      runs_merged [] merged none h = h
      runs_merged [] merged (some d) h = Any-append_left Kept merged (d ∷ []) h
      runs_merged (x ∷ rest) merged none h = runs_merged rest merged (some x) h
      runs_merged (x ∷ rest) merged (some d) h = elim (Bool-cases (should_merge d.chunk x.chunk)) [
        | inl e ↦ rw (e, merge_runs) (runs_merged rest merged (some (merge_into d x)) h)
        | inr e ↦
            rw (e, merge_runs)
              (runs_merged rest (merged ++ (d ∷ [])) (some x)
                (Any-append_left Kept merged (d ∷ []) h))
      ]

      runs_current :
          (rest merged : List (DedupCandidate F)) (d : DedupCandidate F)
          → Kept d
          → Any Kept (merge_runs rest merged (some d))
      unfolding merge_runs
      runs_current [] merged d h = Any-append_right Kept merged (d ∷ []) (inl h)
      runs_current (x ∷ rest) merged d h = elim (Bool-cases (should_merge d.chunk x.chunk)) [
        | inl e ↦
            rw (e, merge_runs)
              (runs_current rest merged (merge_into d x)
                (Covers-trans _ _ _ h (merge_into-Covers d x e).0))
        | inr e ↦
            rw (e, merge_runs)
              (runs_merged rest (merged ++ (d ∷ [])) (some x)
                (Any-append_right Kept merged (d ∷ []) (inl h)))
      ]

      runs_rest :
          (rest merged : List (DedupCandidate F)) (current : Option (DedupCandidate F))
          → Any Kept rest
          → Any Kept (merge_runs rest merged current)
      unfolding merge_runs
      runs_rest [] merged current h = elim h [ ]
      runs_rest (x ∷ rest) merged none (inl h) = runs_current rest merged x h
      runs_rest (x ∷ rest) merged none (inr h) = runs_rest rest merged (some x) h
      runs_rest (x ∷ rest) merged (some d) h = elim (Bool-cases (should_merge d.chunk x.chunk)) [
        | inl e ↦
            rw (e, merge_runs)
              (elim h [
                | inl p ↦
                    runs_current rest merged (merge_into d x)
                      (Covers-trans _ _ _ p (merge_into-Covers d x e).1)
                | inr p ↦ runs_rest rest merged (some (merge_into d x)) p
              ])
        | inr e ↦
            rw (e, merge_runs)
              (elim h [
                | inl p ↦ runs_current rest (merged ++ (d ∷ [])) x p
                | inr p ↦ runs_rest rest (merged ++ (d ∷ [])) (some x) p
              ])
      ]

      candidates-Kept :
          (i : ℕ) (xs : List (HybridResult F))
          → Any (Covers c) xs
          → Any Kept (map (λ p. record { original_index = p.0; chunk = p.1 }) (enumerate_from i xs))
      unfolding enumerate_from
      candidates-Kept i [] h = elim h [ ]
      candidates-Kept i (x ∷ xs) (inl h) = inl h
      candidates-Kept i (x ∷ xs) (inr h) = inr (candidates-Kept (suc i) xs h)

      deduplicate-Any :
          (xs : List (HybridResult F)) → Any (Covers c) xs → Any (Covers c) (deduplicate xs)
      unfolding deduplicate candidates
      deduplicate-Any [] h = elim h [ ]
      deduplicate-Any (x ∷ xs) h =
          let sortable = sort_by by_place (candidates (x ∷ xs)) in
          Any-map (Covers c) (λ (d : DedupCandidate F). d.chunk) _
            (Any-sort_by by_index Kept _ (
              runs_rest sortable [] none
                (Any-sort_by by_place Kept (candidates (x ∷ xs)) (candidates-Kept 0 (x ∷ xs) h))))

    -- Where `total_cmp` is a total order, the output of `deduplicate` covers the line ranges and the
    -- scores of its input: for every input chunk some output chunk has the same file, a line range
    -- that spans the whole of the chunk's, and a relevance score at least as great.
    pub deduplicate-Covers :
        (chunks : List (HybridResult F)) → All (λ c. Any (Covers c) (deduplicate chunks)) chunks
    deduplicate-Covers chunks =
        All-imp (λ c. Any (Covers c) chunks) (λ c. Any (Covers c) (deduplicate chunks))
          (λ c. deduplicate-Any c chunks) chunks (All-self Covers Covers-refl chunks)
