-- ===== src/Context/Assembler/Tests.antt =====
-- Runs of src/context/assembler.rs, with scores in thousandths and one token for each character.
use vektor.Common.{ℕ, leb, Bool, true, false, none, List, map, ◌≡◌, ◌↔◌, refl, All}
use vektor.Common.Milli.{milli}
use vektor.Common.Text.{codes, lower, to_ascii_lowercase, starts_with, contains, member, text_eq}
use vektor.Common.FilePath.{extension, file_name}
use vektor.Common.Int.{pos}
use vektor.Common.Outcome.{Result, ok}
use vektor.Common.Sort.{sort_by}
use vektor.Samples.{found, two_overlapping, source_only}
use vektor.Context.Types.{ContextChunk, ContextPackage}
use vektor.Context.Budget.{Bpe}
use vektor.Context.Assembler.{
  ContextAssembler, with_now_and_status, is_doc_path, path_in_scope, context_chunk_from_hybrid,
  direct_results, by_score, boost, assemble, normalized_score, max_hybrid_score,
}
use vektor.Context.Assembler.Allocate.{search_cut, truncate_to_budget, allocate_budget}
use vektor.Context.Assembler.Allocate.Cut.{IsLongest, search_cut-IsLongest, IsCut}
use vektor.Context.Assembler.Allocate.Fits.{WithinBudget, truncate_to_budget-Truncates}
use vektor.Context.Assembler.Allocate.Selects.{IsAllocation, allocate_budget-IsAllocation}
use vektor.Context.Assembler.Results.{
  IsWithin, IsDirect, path_in_scope_iff, direct_results-IsDirect,
}
use vektor.Context.Assembler.Package.{IsPackage, assemble-IsPackage, ranked_chunks-none}

readme_is_doc : is_doc_path (codes "crate/README.MD") ≡ true
unfolding is_doc_path lower to_ascii_lowercase starts_with contains member text_eq extension
    file_name
readme_is_doc = refl

path_in_scope_iff_example :
    (path_in_scope (codes "src2/a.rs") (codes "src") ≡ true)
    ↔ IsWithin (codes "src2/a.rs") (codes "src")
path_in_scope_iff_example = path_in_scope_iff (codes "src2/a.rs") (codes "src")

direct_results-IsDirect_example :
    All (IsDirect source_only) (direct_results source_only two_overlapping)
direct_results-IsDirect_example = direct_results-IsDirect source_only two_overlapping

abbrev assembler : ContextAssembler ℕ
assembler = record {
  recency = record { now = pos 2000 };
  index_status = codes "full";
  index_coverage_pct = 100000;
  cache_hit = false;
  search_time_ms = 0;
}

full_coverage : (with_now_and_status {D = ℕ} (pos 2000) (codes "full")).index_coverage_pct ≡ 100000
unfolding with_now_and_status text_eq
full_coverage = refl

abbrev ranked : List (ContextChunk ℕ)
ranked = sort_by by_score (
    map (boost assembler.recency)
      (map context_chunk_from_hybrid (direct_results source_only two_overlapping)))

truncate_to_budget-Truncates_example :
    (out : List (ContextChunk ℕ)) × (truncate_to_budget (Bpe.ready (λ s. s)) 10 ranked ≡ ok out)
    × WithinBudget (λ s. s) 10 out
    × IsCut ranked out
truncate_to_budget-Truncates_example = truncate_to_budget-Truncates (λ s. s) 10 ranked

allocate_budget-IsAllocation_example :
    (out : List (ContextChunk ℕ)) × (allocate_budget ℕ (Bpe.ready (λ s. s)) ranked source_only
      ≡ ok out)
    × IsAllocation ℕ (λ s. s) ranked source_only out
allocate_budget-IsAllocation_example = allocate_budget-IsAllocation ℕ (λ s. s) ranked source_only

assemble-IsPackage_example :
    (pkg : ContextPackage ℕ ℕ) × (assemble
        (Bpe.ready (λ s. s))
        assembler
        two_overlapping
        source_only
        none
      ≡ ok pkg)
    × IsPackage ℕ (λ s. s) source_only ranked pkg
assemble-IsPackage_example =
    assemble-IsPackage ℕ (λ s. s) refl assembler two_overlapping source_only none ranked
      (ranked_chunks-none assembler.recency source_only two_overlapping)

abbrev at_most_three : ℕ → Result Bool
at_most_three m = ok (leb m 3)

search_cut-IsLongest_example :
    (r : ℕ) × (search_cut at_most_three 7 0 7 ≡ ok r)
    × IsLongest at_most_three (λ m. leb m 3) (λ m. refl) 7 r
search_cut-IsLongest_example = search_cut-IsLongest at_most_three (λ m. leb m 3) (λ m. refl) 7

-- The best score becomes 1, and the boost of a file of this hour is a tenth.
normalized : normalized_score {F = ℕ} 450 (max_hybrid_score 0 two_overlapping) ≡ 500
unfolding normalized_score max_hybrid_score
normalized = refl

abbrev converted : ContextChunk ℕ
converted = context_chunk_from_hybrid (found (codes "a") (codes "a.rs") 1 9 500)

boosted : (boost assembler.recency converted).rel_path ≡ converted.rel_path
unfolding boost
boosted = refl
