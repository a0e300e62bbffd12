-- ===== src/Context/Assembler/Summary.antt =====
-- src/context/assembler.rs: what a package says about itself (confidence, gap, clusters, warnings).
pub mod Clusters
mod Tests
use vektor.Common.{
  ℕ, ◌+◌, Bool, true, false, ◌&&◌, ◌||◌, not, Option, some, none, List, [], ◌∷◌, ◌++◌, map, filter,
  length, ltb, leb, ◌==◌, if◌then◌else◌,
}
use vektor.Common.Text.{Text, codes, text_eq, text_cmp, decimal, is_empty, dedup_texts}
use vektor.Common.FilePath.{parent, normalized_path}
use vektor.Common.Sort.{sort_by}
use vektor.Common.Float.{FloatOps}
use vektor.Context.Types.{AssemblyConfig, Confidence, GapReason, ResultCluster, ContextChunk}

module _ {D : Type 0} ⦃d : FloatOps D⦄ where
  pub percentage : ℕ → ℕ → D
  percentage numerator denominator =
      if denominator == 0
      then d.literal 0 1
      else d.div
          (d.round
            (d.mul (d.div (d.from_usize numerator) (d.from_usize denominator)) (d.literal 1000 1)))
          (d.literal 10 1)

module _ {F : Type 0} where
  unfoldable pub files_included : List (ContextChunk F) → List Text
  files_included chunks =
      sort_by text_cmp (dedup_texts [] (map (λ (c : ContextChunk F). c.rel_path) chunks))

  pub budget_gap_reason : Text → Bool → ℕ → AssemblyConfig F → Option GapReason
  budget_gap_reason index_status threshold_filtered total_tokens config =
      if not (text_eq index_status (codes "full"))
      then some GapReason.index_incomplete
      else if threshold_filtered
      then some GapReason.threshold_filtered
      else if ltb total_tokens config.token_budget
      then some GapReason.no_more_relevant
      else none

  pub suggested_action : Confidence → Text → List (ContextChunk F) → Option Text
  suggested_action confidence index_status chunks =
      if not (text_eq index_status (codes "full"))
      then some
          (codes "Run index_codebase to refresh the project index before relying on this context")
      else elim chunks [
        | [] ↦ some (codes "Broaden the query, lower min_relevance, or adjust scope")
        | _ ∷ _ ↦ elim confidence [
          | Confidence.low ↦ some (codes "Try a broader query or include more files")
          | _ ↦ none
        ]
      ]

  module _ ⦃f : FloatOps F⦄ where
    -- `chunk.relevance_score >= min_relevance`, counted.
    pub above_threshold : List (ContextChunk F) → F → ℕ
    above_threshold chunks min_relevance =
        length (filter (λ (c : ContextChunk F). f.le min_relevance c.relevance_score) chunks)

    pub confidence : List (ContextChunk F) → F → Confidence
    confidence [] min_relevance = Confidence.low
    confidence (top ∷ chunks) min_relevance =
        let above = above_threshold (top ∷ chunks) min_relevance in
        if f.lt top.relevance_score (f.literal 5 10) || ltb above 2
        then Confidence.low
        else if f.lt (f.literal 8 10) top.relevance_score && leb 3 above
        then Confidence.high
        else Confidence.medium

pub path_prefix : Text → Text
path_prefix rel_path = elim (parent rel_path) [
  | none ↦ codes "."
  | some dir ↦ let prefix = normalized_path dir in if is_empty prefix then codes "." else prefix
]

module _ {F : Type 0} ⦃f : FloatOps F⦄ where
  -- `groups.entry(prefix).or_default().push(score)`.
  pub push_score : Text → F → List (Text × List F) → List (Text × List F)
  push_score prefix score [] = (prefix, score ∷ []) ∷ []
  push_score prefix score ((p, scores) ∷ groups) =
      if text_eq p prefix
      then (p, scores ++ (score ∷ [])) ∷ groups
      else (p, scores) ∷ push_score prefix score groups

  pub group_scores : List (Text × List F) → List (ContextChunk F) → List (Text × List F)
  group_scores groups [] = groups
  group_scores groups (c ∷ chunks) =
      group_scores (push_score (path_prefix c.rel_path) c.relevance_score groups) chunks

  pub sum_scores : F → List F → F
  sum_scores acc [] = acc
  sum_scores acc (score ∷ scores) = sum_scores (f.add acc score) scores

  pub clusters : List (ContextChunk F) → List (ResultCluster F)
  clusters chunks =
      let groups = group_scores [] chunks in
      if leb (length groups) 2
      then []
      else sort_by (λ (l r : ResultCluster F). text_cmp l.path_prefix r.path_prefix)
          (map
            (λ (g : Text × List F). record {
              path_prefix = g.0;
              chunk_count = length g.1;
              avg_relevance = f.div (sum_scores (f.literal 0 1) g.1) (f.from_usize (length g.1));
            })
            groups)

pub warnings : Text → ℕ → Bool → Bool → List Text
warnings index_status chunks_deduplicated include_related missing_related_context =
    (if text_eq index_status (codes "full")
      then []
      else (codes "index_status is `" ++ (index_status ++ codes "`; results may be incomplete"))
        ∷ [])
    ++ ((if ltb 0 chunks_deduplicated
          then (codes "deduplicated "
              ++ (decimal chunks_deduplicated ++ codes " overlapping context chunks"))
            ∷ []
          else [])
        ++ (if include_related && missing_related_context
            then codes "related expansion requested without a related-search store" ∷ []
            else []))
