-- ===== src/Context/Dedup/Origin.antt =====
-- Where the output of src/context/dedup.rs comes from.
use vektor.Common.{
  ℕ, suc, ◌≤◌, Option, some, none, List, [], ◌∷◌, ◌++◌, map, ◌≡◌, refl, ap, ◌+◌, min, max, inl, inr,
  Bool-cases, length, All, Any, Any-imp, All-self, All-map, All-append, arith, enumerate_from,
  length-map, length-append,
}
use vektor.Common.Sort.{All-sort_by, length-sort_by, sort_by}
use vektor.Common.Float.{FloatOps}
use vektor.Search.Types.{HybridResult}
use vektor.Context.Dedup.{
  DedupCandidate, should_merge, should_replace, merge_into, merge_runs, candidates, deduplicate,
  by_place, by_index,
}

module _ {F : Type 0} where
  -- `d` is the input `c` with another line range.
  abbrev pub Widens : HybridResult F → HybridResult F → Type 0
  Widens d c = d ≡ record c { start_line = d.start_line; end_line = d.end_line }

module _ {F : Type 0} ⦃f : FloatOps F⦄ where
  module _ (inputs : List (HybridResult F)) where
    abbrev FromInput : DedupCandidate F → Type 0
    FromInput d = Any (Widens d.chunk) inputs

    -- The kept chunk of a merge is one of the two, under other lines.
    merge_into-FromInput :
        (a c : DedupCandidate F) → FromInput a → FromInput c → FromInput (merge_into a c)
    unfolding merge_into
    merge_into-FromInput a c h k = elim (Bool-cases (should_replace a.chunk c.chunk)) [
      | inl e ↦ rw e (Any-imp (Widens c.chunk) _ (λ x p. widen_again x c.chunk p) inputs k)
      | inr e ↦ rw e (Any-imp (Widens a.chunk) _ (λ x p. widen_again x a.chunk p) inputs h)
    ]
      where
        widen_again :
            (x d : HybridResult F)
            → Widens d x
            → Widens
                (record d {
                  start_line = min a.chunk.start_line c.chunk.start_line;
                  end_line = max a.chunk.end_line c.chunk.end_line;
                })
                x
        widen_again x d p =
            ap
              (λ (y : HybridResult F). record y {
                start_line = min a.chunk.start_line c.chunk.start_line;
                end_line = max a.chunk.end_line c.chunk.end_line;
              })
              p

    abbrev CurrentFrom : Option (DedupCandidate F) → Type 0
    CurrentFrom none = Unit
    CurrentFrom (some d) = FromInput d

    runs-FromInput :
        (rest merged : List (DedupCandidate F)) (current : Option (DedupCandidate F))
        → All FromInput rest
        → All FromInput merged
        → CurrentFrom current
        → All FromInput (merge_runs rest merged current)
    unfolding merge_runs
    runs-FromInput [] merged none r m k = m
    runs-FromInput [] merged (some d) r m k = All-append FromInput merged (d ∷ []) m (k, tt)
    runs-FromInput (x ∷ rest) merged none r m k = runs-FromInput rest merged (some x) r.1 m r.0
    runs-FromInput (x ∷ rest) merged (some d) r m k =
        elim (Bool-cases (should_merge d.chunk x.chunk)) [
          | inl e ↦
              rw (e, merge_runs)
                (runs-FromInput rest merged (some (merge_into d x)) r.1 m
                  (merge_into-FromInput d x k r.0))
          | inr e ↦
              rw (e, merge_runs)
                (runs-FromInput rest (merged ++ (d ∷ [])) (some x) r.1
                  (All-append FromInput merged (d ∷ []) m (k, tt)) r.0)
        ]

    candidates-FromInput :
        (i : ℕ) (xs : List (HybridResult F))
        → All (λ x. Any (Widens x) inputs) xs
        → All FromInput
            (map (λ p. record { original_index = p.0; chunk = p.1 }) (enumerate_from i xs))
    unfolding enumerate_from
    candidates-FromInput i [] h = tt
    candidates-FromInput i (x ∷ xs) h = (h.0, candidates-FromInput (suc i) xs h.1)

  Widens-refl : (c : HybridResult F) → Widens c c
  Widens-refl c = refl

  -- Every chunk that `deduplicate` returns is an input chunk, identifier, content, score and all
  -- other fields unchanged, but for its first and last line.
  pub deduplicate-FromInput :
      (chunks : List (HybridResult F)) → All (λ d. Any (Widens d) chunks) (deduplicate chunks)
  unfolding deduplicate candidates
  deduplicate-FromInput [] = tt
  deduplicate-FromInput (x ∷ xs) =
      let inputs = x ∷ xs in
      All-map (λ d. Any (Widens d) inputs) (λ (d : DedupCandidate F). d.chunk) _
        (All-sort_by by_index (FromInput inputs) _ (
          runs-FromInput inputs (sort_by by_place (candidates inputs)) [] none
            (All-sort_by by_place (FromInput inputs) (candidates inputs)
              (candidates-FromInput inputs 0 inputs (All-self Widens Widens-refl inputs)))
            tt tt))

  abbrev count_current : Option (DedupCandidate F) → ℕ
  count_current none = 0
  count_current (some d) = 1

  length-merge_runs :
      (rest merged : List (DedupCandidate F)) (current : Option (DedupCandidate F))
      → length (merge_runs rest merged current)
        ≤ length rest + length merged + count_current current
  unfolding merge_runs
  length-merge_runs [] merged none = omega arith
  length-merge_runs [] merged (some d) = omega (arith, length-append merged (d ∷ []))
  length-merge_runs (x ∷ rest) merged none = omega (arith, length-merge_runs rest merged (some x))
  length-merge_runs (x ∷ rest) merged (some d) = ground (
    arith,
    length-append merged (d ∷ []),
    length-merge_runs rest merged (some (merge_into d x)),
    length-merge_runs rest (merged ++ (d ∷ [])) (some x),
  )

  length-enumerate_from :
      (i : ℕ) (xs : List (HybridResult F)) → length (enumerate_from i xs) ≡ length xs
  unfolding enumerate_from
  length-enumerate_from i [] = refl
  length-enumerate_from i (x ∷ xs) = ap suc (length-enumerate_from (suc i) xs)

  -- `deduplicate` never returns more chunks than it is given.
  pub length-deduplicate-le :
      (chunks : List (HybridResult F)) → length (deduplicate chunks) ≤ length chunks
  unfolding deduplicate candidates
  length-deduplicate-le [] = omega arith
  length-deduplicate-le (x ∷ xs) =
      let inputs = x ∷ xs in
      let sortable = sort_by by_place (candidates inputs) in
      let merged = merge_runs sortable [] none in
      omega (
        arith,
        length-map (sort_by by_index merged) (λ (d : DedupCandidate F). d.chunk),
        length-sort_by by_index merged,
        length-merge_runs sortable [] none,
        length-sort_by by_place (candidates inputs),
        length-map {B = DedupCandidate F} (enumerate_from 0 inputs)
            (λ p. record { original_index = p.0; chunk = p.1 }),
        length-enumerate_from 0 inputs,
      )
