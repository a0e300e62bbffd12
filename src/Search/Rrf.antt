-- ===== src/Search/Rrf.antt =====
-- src/search/rrf.rs: reciprocal rank fusion. The map of scores is a list of entries; the sort that
-- follows orders them by score and by id.
pub mod Fused
use vektor.Common.{
  ℕ, zero, suc, ◌+◌, ◌%◌, ◌^◌, Ordering, Bool, true, false, Option, some, none, List, [], ◌∷◌, ◌++◌,
  map, if◌then◌else◌, enumerate_from,
}
use vektor.Common.Text.{Text, text_eq, text_cmp}
use vektor.Common.Sort.{sort_by, then_with}
use vektor.Common.Float.{FloatOps}
use vektor.Search.Weights.{AdaptiveWeights}

abbrev pub rrf_k : ℕ
rrf_k = 60

pub record RankedId : Type 0 where
  pub chunk_id : Text

pub record FusedHit (F : Type 0) : Type 0 where
  pub chunk_id : Text
  pub score : F

module _ {F : Type 0} ⦃f : FloatOps F⦄ where
  -- `*scores.entry(id).or_insert(0.0) += contribution`.
  pub add_score : Text → F → List (Text × F) → List (Text × F)
  add_score id contribution [] = (id, f.add (f.literal 0 1) contribution) ∷ []
  add_score id contribution (entry ∷ scores) =
      if text_eq entry.0 id
      then (entry.0, f.add entry.1 contribution) ∷ scores
      else entry ∷ add_score id contribution scores

  -- The loop from a rank on.
  pub add_rrf_scores_from : ℕ → List (Text × F) → List RankedId → ℕ → F → List (Text × F)
  add_rrf_scores_from rank scores [] k weight = scores
  add_rrf_scores_from rank scores (hit ∷ ranked) k weight =
      let one_based_rank = (rank % 2 ^ 32 + 1) % 2 ^ 32 in
      let contribution = f.div weight (f.from_usize ((k + one_based_rank) % 2 ^ 32)) in
      add_rrf_scores_from (suc rank) (add_score hit.chunk_id contribution scores) ranked k weight

  pub add_rrf_scores : List (Text × F) → List RankedId → ℕ → F → List (Text × F)
  add_rrf_scores scores ranked k weight = add_rrf_scores_from 0 scores ranked k weight

  abbrev pub by_fused_score : FusedHit F → FusedHit F → Ordering
  by_fused_score left right =
      then_with (f.total_cmp right.score left.score) (text_cmp left.chunk_id right.chunk_id)

  abbrev pub fused_hit : Text × F → FusedHit F
  fused_hit entry = record { chunk_id = entry.0; score = entry.1 }

  pub rrf_fuse : List RankedId → List RankedId → ℕ → AdaptiveWeights F → List (FusedHit F)
  rrf_fuse semantic keyword k weights =
      let scores = add_rrf_scores [] semantic k weights.semantic in
      let both = add_rrf_scores scores keyword k weights.keyword in
      sort_by by_fused_score (map fused_hit both)
