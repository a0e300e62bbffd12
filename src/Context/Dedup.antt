-- ===== src/Context/Dedup.antt =====
-- src/context/dedup.rs: overlapping results of one file are merged.
pub mod Coverage
pub mod Origin
mod Tests
use vektor.Common.{
  ℕ, ◌+◌, ◌-◌, ◌*◌, min, max, Ordering, compare, Bool, true, false, ◌&&◌, not, Option, some, none,
  List, [], ◌∷◌, ◌++◌, map, ltb, if◌then◌else◌, enumerate_from,
}
use vektor.Common.Text.{text_eq, text_cmp}
use vektor.Common.Sort.{sort_by, then_with}
use vektor.Common.Float.{FloatOps}
use vektor.Common.Words.{saturating_mul}
use vektor.Search.Types.{HybridResult}

pub record DedupCandidate (F : Type 0) : Type 0 where
  pub original_index : ℕ
  pub chunk : HybridResult F

module _ {F : Type 0} where
  pub overlap_lines : HybridResult F → HybridResult F → ℕ
  overlap_lines left right =
      let start = max left.start_line right.start_line in
      let end = min left.end_line right.end_line in if ltb end start then 0 else end - start + 1

  pub span : HybridResult F → ℕ
  span chunk =
      if ltb chunk.end_line chunk.start_line then 0 else chunk.end_line - chunk.start_line + 1

  pub min_span : HybridResult F → HybridResult F → ℕ
  min_span left right = min (span left) (span right)

  pub should_merge : HybridResult F → HybridResult F → Bool
  should_merge left right =
      if not (text_eq left.rel_path right.rel_path)
      then false
      else let overlap = overlap_lines left right in
        let smaller_span = min_span left right in
        ltb 0 overlap && (ltb 0 smaller_span && ltb smaller_span (saturating_mul overlap 2))

  -- The order of the first sort: path, first line, last line, position.
  abbrev pub by_place : DedupCandidate F → DedupCandidate F → Ordering
  by_place left right = then_with (text_cmp left.chunk.rel_path right.chunk.rel_path) (
      then_with (compare left.chunk.start_line right.chunk.start_line) (
        then_with (compare left.chunk.end_line right.chunk.end_line)
          (compare left.original_index right.original_index)))

  abbrev pub by_index : DedupCandidate F → DedupCandidate F → Ordering
  by_index left right = compare left.original_index right.original_index

  module _ ⦃f : FloatOps F⦄ where
    pub should_replace : HybridResult F → HybridResult F → Bool
    should_replace active candidate =
        elim (f.total_cmp candidate.relevance_score active.relevance_score) [
          | Ordering.gt ↦ true
          | Ordering.lt ↦ false
          | Ordering.eq ↦
              elim (then_with (compare (span candidate) (span active))
                (compare active.start_line candidate.start_line)) [ Ordering.gt ↦ true | _ ↦ false ]
        ]

    pub merge_into : DedupCandidate F → DedupCandidate F → DedupCandidate F
    merge_into active candidate =
        let start = min active.chunk.start_line candidate.chunk.start_line in
        let end = max active.chunk.end_line candidate.chunk.end_line in
        let kept : DedupCandidate F =
          if should_replace active.chunk candidate.chunk then candidate else active in
        record kept { chunk = record (kept.chunk) { start_line = start; end_line = end } }

    -- The loop over the sorted candidates: what is left, `merged` and `current`.
    pub merge_runs :
        List (DedupCandidate F)
        → List (DedupCandidate F)
        → Option (DedupCandidate F)
        → List (DedupCandidate F)
    merge_runs [] merged none = merged
    merge_runs [] merged (some done) = merged ++ (done ∷ [])
    merge_runs (candidate ∷ rest) merged none = merge_runs rest merged (some candidate)
    merge_runs (candidate ∷ rest) merged (some active) =
        elim (should_merge active.chunk candidate.chunk) [
          | true ↦ merge_runs rest merged (some (merge_into active candidate))
          | false ↦ merge_runs rest (merged ++ (active ∷ [])) (some candidate)
        ]

    pub candidates : List (HybridResult F) → List (DedupCandidate F)
    candidates chunks =
        map (λ p. record { original_index = p.0; chunk = p.1 }) (enumerate_from 0 chunks)

    pub deduplicate : List (HybridResult F) → List (HybridResult F)
    unfolding candidates
    deduplicate [] = []
    deduplicate (c ∷ cs) =
        let sortable = sort_by by_place (candidates (c ∷ cs)) in
        let merged = merge_runs sortable [] none in
        map (λ (candidate : DedupCandidate F). candidate.chunk) (sort_by by_index merged)
