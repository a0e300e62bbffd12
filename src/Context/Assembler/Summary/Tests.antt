-- ===== src/Context/Assembler/Summary/Tests.antt =====
-- Runs of the summary of a package in src/context/assembler.rs, with scores in thousandths.
use vektor.Common.{
  ◌≢◌, ◌≤◌, length, Pairwise, ℕ, true, false, some, List, [], ◌∷◌, map, ◌≡◌, ◌⊎◌, refl,
}
use vektor.Common.Milli.{milli}
use vektor.Common.Text.{Text, codes, text_eq, decimal, decimal_go}
use vektor.Samples.{found, source_only}
use vektor.Context.Types.{Confidence, GapReason, ContextChunk, ResultCluster}
use vektor.Context.Assembler.{context_chunk_from_hybrid}
use vektor.Context.Assembler.Summary.{
  percentage, budget_gap_reason, suggested_action, above_threshold, confidence, sum_scores,
  clusters, warnings,
}
use vektor.Context.Assembler.Summary.Clusters.{LieIn, tally, counted, clusters-count}

third : percentage {D = ℕ} 1 3 ≡ 33300
unfolding percentage
third = refl

filtered_first :
    budget_gap_reason (codes "full") true 3 source_only ≡ some GapReason.threshold_filtered
unfolding budget_gap_reason text_eq
filtered_first = refl

nothing_found :
    suggested_action {F = ℕ} Confidence.low (codes "full") []
    ≡ some (codes "Broaden the query, lower min_relevance, or adjust scope")
unfolding suggested_action text_eq
nothing_found = refl

merged_warning :
    warnings (codes "full") 2 true false ≡ codes "deduplicated 2 overlapping context chunks" ∷ []
unfolding warnings text_eq decimal decimal_go
merged_warning = refl

abbrev three : List (ContextChunk ℕ)
three =
    map (λ h. context_chunk_from_hybrid h)
      (found (codes "a") (codes "a/x.rs") 1 9 900
        ∷ found (codes "b") (codes "b/x.rs") 1 9 500
        ∷ found (codes "c") (codes "c/x.rs") 1 9 400
        ∷ [])

high_confidence : confidence three 300 ≡ Confidence.high
unfolding confidence above_threshold context_chunk_from_hybrid
high_confidence = refl

sums : sum_scores {F = ℕ} 0 (1 ∷ 2 ∷ []) ≡ 3
unfolding sum_scores
sums = refl

clusters-count_example :
    ((clusters three ≡ []) × ((dirs : List Text) × (length dirs ≤ 2) × LieIn dirs three))
    ⊎ ((3 ≤ length (clusters three))
        × Pairwise (λ (a b : ResultCluster ℕ). a.path_prefix ≢ b.path_prefix) (clusters three)
        × ((dir : Text) → counted dir (clusters three) ≡ tally dir three))
clusters-count_example = clusters-count three
