-- ===== src/Context/Assembler/Allocate/Selects.antt =====
-- `allocate_budget` of src/context/assembler.rs as a whole.
use native.Mathlib.Nat.{le_trans}
use vektor.Common.{
  Any-imp, ℕ, ◌≤◌, max, true, false, List, [], ◌∷◌, ◌≡◌, refl, ◌∙◌, inl, inr, Bool-cases, length,
  arith, ◌==◌, All, Any, All-self,
}
use vektor.Common.Text.{Text, dedup_texts}
use vektor.Common.Words.{saturating_mul, div_ceil}
use vektor.Common.Float.{FloatOps}
use vektor.Common.Outcome.{ok}
use vektor.Context.Types.{ContextChunk, AssemblyConfig}
use vektor.Context.Budget.{Bpe}
use vektor.Context.Assembler.Allocate.{refill, first_selection, allocate_budget, truncate_to_budget}
use vektor.Context.Assembler.Allocate.Cut.{Shortened, Shortened-refl, Shortened-trans, All-cut}
use vektor.Context.Assembler.Allocate.Fits.{
  weight, tokens-weight, WithinBudget, truncate_to_budget-Truncates,
}
use vektor.Context.Assembler.Allocate.Files.{distinct_files, distinct_files-cut}
use vektor.Context.Assembler.Allocate.State.{refill-Refills, first_selection-IsState}

module _ {F : Type 0} (D : Type 0) ⦃d : FloatOps D⦄ (encode : Text → List ℕ) where
  -- What an allocation is, for the chunks and the configuration that it is made from.
  pub record IsAllocation (chunks : List (ContextChunk F)) (config : AssemblyConfig F)
      (out : List (ContextChunk F)) : Type 0 where
    pub within : WithinBudget encode config.token_budget out
    pub files : length (distinct_files out) ≤ max config.max_files 1
    pub origin : All (λ c. Any (λ x. Shortened x c) chunks) out

  module _ (chunks : List (ContextChunk F)) where
    abbrev Given : ContextChunk F → Type 0
    Given c = Any (λ x. Shortened x c) chunks

    Given-Shortened : (x y : ContextChunk F) → Shortened x y → Given x → Given y
    Given-Shortened x y h =
        Any-imp (λ z. Shortened z x) (λ z. Shortened z y) (λ z k. Shortened-trans z x y k h) chunks

    Given-All : All Given chunks
    Given-All = All-self (λ c x. Shortened x c) Shortened-refl chunks

    cut-IsAllocation :
        (config : AssemblyConfig F) (refilled : List (ContextChunk F))
        → All Given refilled
        → length (distinct_files refilled) ≤ max config.max_files 1
        → (out : List (ContextChunk F)) × (truncate_to_budget
              (Bpe.ready encode)
              config.token_budget
              refilled
            ≡ ok out)
          × IsAllocation chunks config out
    cut-IsAllocation config refilled given few =
        let (out, run, within, cut) =
          truncate_to_budget-Truncates encode config.token_budget refilled in
        (
          out,
          run,
          record {
            within = within;
            files = le_trans (distinct_files-cut refilled out cut) few;
            origin = All-cut Given Given-Shortened refilled out cut given;
          },
        )

  empty-IsAllocation :
      (chunks : List (ContextChunk F)) (config : AssemblyConfig F) → IsAllocation chunks config []
  unfolding dedup_texts
  empty-IsAllocation chunks config = record { within = inr refl; files = omega arith; origin = tt }

  allocate_none :
      (config : AssemblyConfig F) → allocate_budget D (Bpe.ready encode) [] config ≡ ok []
  unfolding allocate_budget
  allocate_none config = refl

  allocate_nothing :
      (c : ContextChunk F) (cs : List (ContextChunk F)) (config : AssemblyConfig F)
      → (config.token_budget == 0) ≡ true
      → allocate_budget D (Bpe.ready encode) (c ∷ cs) config ≡ ok []
  unfolding allocate_budget
  allocate_nothing c cs config h = rw h

  -- The three steps of `allocate_budget` on a budget that is not 0.
  allocate_steps :
      (c : ContextChunk F) (cs : List (ContextChunk F)) (config : AssemblyConfig F)
      {refilled : List (ContextChunk F)}
      → (config.token_budget == 0) ≡ false
      → refill
          (Bpe.ready encode)
          config.token_budget
          (div_ceil (saturating_mul config.token_budget 95) 100)
          config.max_files
          (first_selection D config (c ∷ cs)).remaining
          (first_selection D config (c ∷ cs)).files
          (first_selection D config (c ∷ cs)).selected
          (weight encode (first_selection D config (c ∷ cs)).selected)
        ≡ ok refilled
      → allocate_budget D (Bpe.ready encode) (c ∷ cs) config
        ≡ truncate_to_budget (Bpe.ready encode) config.token_budget refilled
  unfolding allocate_budget
  allocate_steps c cs config h e =
      rw h (rw (tokens-weight encode (first_selection D config (c ∷ cs)).selected) (rw e refl))

  -- Where the encoder is ready, `allocate_budget` returns on every input. The chunks that it
  -- returns fit the token budget or are none, come from at most `max_files` files (one, if that
  -- is 0), and each is one of the given chunks, its content perhaps shortened.
  pub allocate_budget-IsAllocation :
      (chunks : List (ContextChunk F)) (config : AssemblyConfig F)
      → (out : List (ContextChunk F)) × (allocate_budget D (Bpe.ready encode) chunks config
          ≡ ok out)
        × IsAllocation chunks config out
  allocate_budget-IsAllocation [] config = ([], allocate_none config, empty-IsAllocation [] config)
  allocate_budget-IsAllocation (c ∷ cs) config = elim (Bool-cases (config.token_budget == 0)) [
    | inl zero_budget ↦
        ([], allocate_nothing c cs config zero_budget, empty-IsAllocation (c ∷ cs) config)
    | inr some_budget ↦
        let chunks : List (ContextChunk F) = c ∷ cs in
        let bound = max config.max_files 1 in
        let st = first_selection D config chunks in
        let state =
          first_selection-IsState (Given chunks) config.max_files bound (omega arith) D
            (omega arith) config chunks refl (Given-All chunks) in
        let (refilled, run, given, few) =
          refill-Refills (Given chunks) config.max_files bound (omega arith) encode
            config.token_budget (div_ceil (saturating_mul config.token_budget 95) 100) st.remaining
            st.files st.selected (weight encode st.selected) state.left state.taken in
        let (out, cut, allocation) = cut-IsAllocation chunks config refilled given few in
        (out, allocate_steps c cs config some_budget run ∙ cut, allocation)
  ]
