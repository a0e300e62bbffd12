-- ===== src/Context/Assembler/Package.antt =====
-- What a package of src/context/assembler.rs promises.
use vektor.Common.{
  ℕ, ◌≤◌, max, Option, none, List, [], map, ◌≡◌, refl, inl, inr, length, All, Any, arith,
}
use vektor.Common.Text.{Text, text_cmp, join}
use vektor.Common.Sort.{length-sort_by, sort_by}
use vektor.Common.Float.{FloatOps}
use vektor.Common.Outcome.{ok}
use vektor.Search.Types.{HybridResult}
use vektor.Context.Types.{ContextChunk, AssemblyConfig, ContextPackage}
use vektor.Context.Budget.{Bpe, count_exact}
use vektor.Context.Recency.{RecencyTracker}
use vektor.Context.Assembler.{
  ContextAssembler, RelatedExpansion, assemble, ranked_chunks, describe, add_related, by_score,
  boost, context_chunk_from_hybrid, direct_results,
}
use vektor.Context.Assembler.Summary.{files_included}
use vektor.Context.Assembler.Allocate.{package_text}
use vektor.Context.Assembler.Allocate.Fits.{weight, WithinBudget}
use vektor.Context.Assembler.Allocate.Cut.{Shortened}
use vektor.Context.Assembler.Allocate.Files.{distinct_files}
use vektor.Context.Assembler.Allocate.Selects.{allocate_budget-IsAllocation}

module _ {F : Type 0} (encode : Text → List ℕ) where
  weight-le :
      encode [] ≡ []
      → (budget : ℕ) (out : List (ContextChunk F)) → WithinBudget encode budget out
      → weight encode out ≤ budget
  unfolding package_text join
  weight-le blank budget out (inl h) = h
  weight-le blank budget out (inr e) = rw (e, blank) (omega arith)

module _ {F : Type 0} where
  length-files_included :
      (out : List (ContextChunk F)) → length (files_included out) ≡ length (distinct_files out)
  unfolding files_included
  length-files_included out = length-sort_by text_cmp (distinct_files out)

module _ {F : Type 0} (D : Type 0) (encode : Text → List ℕ) where
  -- A package for `chunks`: its totals fit, its files are few, its chunks come from `chunks`.
  pub record IsPackage (config : AssemblyConfig F) (chunks : List (ContextChunk F))
      (pkg : ContextPackage F D) : Type 0 where
    pub counted : pkg.total_tokens ≡ weight encode pkg.chunks
    pub budget : pkg.total_tokens ≤ config.token_budget
    pub listed : pkg.files_included ≡ files_included pkg.chunks
    pub files : length pkg.files_included ≤ max config.max_files 1
    pub origin : All (λ c. Any (λ x. Shortened x c) chunks) pkg.chunks

  module _ ⦃f : FloatOps F⦄ ⦃d : FloatOps D⦄ where
    -- Where the encoder is ready and gives no token for the empty text, and the ranking of the
    -- chunks succeeds, `assemble` returns a package. Its token total is that of its text and is
    -- within the budget, it names its chunks' files, at most `max_files` of them (one, if that is
    -- 0), and each of its chunks is a ranked chunk, its content perhaps shortened.
    pub assemble-IsPackage :
        encode [] ≡ []
        → (assembler : ContextAssembler D) (results : List (HybridResult F))
          (config : AssemblyConfig F) (related : Option (RelatedExpansion F))
          (chunks : List (ContextChunk F))
        → ranked_chunks assembler.recency config results related ≡ ok chunks
        → (pkg : ContextPackage F D) × (assemble (Bpe.ready encode) assembler results config related
            ≡ ok pkg)
          × IsPackage config chunks pkg
    unfolding assemble describe count_exact
    assemble-IsPackage blank assembler results config related chunks ranked =
        let (out, run, allocation) = allocate_budget-IsAllocation D encode chunks config in
        (
          describe assembler results config related out (weight encode out),
          rw ranked (rw run refl),
          record {
            counted = refl;
            budget = weight-le encode blank config.token_budget out allocation.within;
            listed = refl;
            files = rw (length-files_included out) allocation.files;
            origin = allocation.origin;
          },
        )

-- Without a store of related chunks the ranking does not fail: it is the direct results, boosted,
-- in the order of their scores.
pub ranked_chunks-none :
    {F : Type 0} ⦃f : FloatOps F⦄ (recency : RecencyTracker) (config : AssemblyConfig F)
    (results : List (HybridResult F))
    → ranked_chunks recency config results none
      ≡ ok (
          sort_by by_score
            (map (boost recency) (map context_chunk_from_hybrid (direct_results config results))))
unfolding ranked_chunks add_related
ranked_chunks-none recency config results = refl
