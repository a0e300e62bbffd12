-- ===== src/Context/Assembler/Allocate/Fits.antt =====
-- What `truncate_to_budget` of src/context/assembler.rs does to a list of chunks.
use vektor.Common.{
  subst, sym, ℕ, zero, suc, ◌+◌, ◌-◌, ◌*◌, ◌≤◌, Bool, true, false, List, [], ◌∷◌, ◌≡◌, refl, inl,
  inr, ◌⊎◌, Bool-cases, length, take, leb, leb→le, ◌==◌, arith,
}
use vektor.Common.Text.{Text}
use vektor.Common.Outcome.{Result, ok}
use vektor.Context.Types.{ContextChunk}
use vektor.Context.Budget.{Bpe, count_exact}
use vektor.Context.Assembler.Allocate.{
  package_text, search_cut, last_content, set_last_content, pop_chunk, tokens, cut_fits,
  truncate_loop, truncate_to_budget,
}
use vektor.Context.Assembler.Allocate.Cut.{
  search_cut-IsLongest, IsCut, IsCut-refl, IsCut-trans, pop_chunk-IsCut, set_last_content-IsCut,
  length-pop_chunk,
}

module _ {F : Type 0} (encode : Text → List ℕ) where
  -- The tokens of the chunks, where the encoder is ready.
  abbrev pub weight : List (ContextChunk F) → ℕ
  weight chunks = length (encode (package_text chunks))

  pub tokens-weight :
      (chunks : List (ContextChunk F)) → tokens (Bpe.ready encode) chunks ≡ ok (weight chunks)
  unfolding tokens count_exact
  tokens-weight chunks = refl

module _ {F : Type 0} (encode : Text → List ℕ) (token_budget : ℕ) where
  abbrev pub WithinBudget : List (ContextChunk F) → Type 0
  WithinBudget out = (weight encode out ≤ token_budget) ⊎ (out ≡ [])

  abbrev loop : ℕ → List (ContextChunk F) → Result (List (ContextChunk F))
  loop = truncate_loop (Bpe.ready encode) token_budget

  -- What a run from `chunks` is to give.
  abbrev Truncates : Result (List (ContextChunk F)) → List (ContextChunk F) → Type 0
  Truncates run chunks =
      (out : List (ContextChunk F)) × (run ≡ ok out) × WithinBudget out × IsCut chunks out

  Truncates-after :
      (run : Result (List (ContextChunk F))) (xs ys : List (ContextChunk F))
      → IsCut xs ys
      → Truncates run ys
      → Truncates run xs
  Truncates-after run xs ys h (out, e, within, cut) = (out, e, within, IsCut-trans xs ys out h cut)

  loop_fits :
      (rounds : ℕ) (chunks : List (ContextChunk F))
      → leb (weight encode chunks) token_budget ≡ true
      → loop (suc rounds) chunks ≡ ok chunks
  unfolding truncate_loop
  loop_fits rounds chunks h = ground (arith, tokens-weight encode chunks)

  loop_empty : (rounds : ℕ) → loop (suc rounds) [] ≡ ok []
  unfolding truncate_loop
  loop_empty rounds = ground (arith, tokens-weight {F = F} encode [])

  module _ (rounds : ℕ) (c : ContextChunk F) (cs : List (ContextChunk F)) where
    abbrev whole : List (ContextChunk F)
    whole = c ∷ cs

    abbrev cut_at : ℕ → List (ContextChunk F)
    cut_at low = set_last_content (take low (last_content whole)) whole

    module _ (over : leb (weight encode whole) token_budget ≡ false) where
      loop_no_text :
          (length (last_content whole) == 0) ≡ true
          → loop (suc rounds) whole ≡ loop rounds (pop_chunk whole)
      unfolding truncate_loop
      loop_no_text h = ground (arith, tokens-weight encode whole)

      loop_cut_none :
          (length (last_content whole) == 0) ≡ false
          → search_cut
              (cut_fits (Bpe.ready encode) token_budget whole (last_content whole))
              (length (last_content whole))
              0
              (length (last_content whole))
            ≡ ok 0
          → loop (suc rounds) whole ≡ loop rounds (pop_chunk whole)
      unfolding truncate_loop
      loop_cut_none h found = ground (arith, tokens-weight encode whole)

      loop_cut_some :
          (n : ℕ)
          → (length (last_content whole) == 0) ≡ false
          → search_cut
              (cut_fits (Bpe.ready encode) token_budget whole (last_content whole))
              (length (last_content whole))
              0
              (length (last_content whole))
            ≡ ok (suc n)
          → loop (suc rounds) whole ≡ loop rounds (cut_at (suc n))
      unfolding truncate_loop
      loop_cut_some n h found = ground (arith, tokens-weight encode whole)

    abbrev cut_passes : ℕ → Bool
    cut_passes m = leb (weight encode (cut_at m)) token_budget

    cut_fits-passes :
        (m : ℕ)
        → cut_fits (Bpe.ready encode) token_budget whole (last_content whole) m ≡ ok (cut_passes m)
    unfolding cut_fits
    cut_fits-passes m = rw (tokens-weight encode (cut_at m))

    -- A cut that the search found fits, so the next round returns it.
    loop_after_cut :
        (n : ℕ)
        → 1 ≤ rounds
        → (suc n ≡ 0) ⊎ (cut_passes (suc n) ≡ true)
        → Truncates (loop rounds (cut_at (suc n))) whole
    loop_after_cut n h (inl e) = absurd (omega arith)
    loop_after_cut n h (inr fit) =
        let same : rounds ≡ suc (rounds - 1) = omega arith in
        (
          cut_at (suc n),
          rw same (loop_fits (rounds - 1) (cut_at (suc n)) fit),
          inl (leb→le _ _ fit),
          set_last_content-IsCut (suc n) whole,
        )

    -- One round that searches for a cut.
    loop_search :
        (low : ℕ)
        → leb (weight encode whole) token_budget ≡ false
        → (length (last_content whole) == 0) ≡ false
        → search_cut
            (cut_fits (Bpe.ready encode) token_budget whole (last_content whole))
            (length (last_content whole))
            0
            (length (last_content whole))
          ≡ ok low
        → (low ≡ 0) ⊎ (cut_passes low ≡ true)
        → 1 ≤ rounds
        → Truncates (loop rounds (pop_chunk whole)) whole
        → Truncates (loop (suc rounds) whole) whole
    loop_search zero over h found fit r popped =
        subst (λ run. Truncates run whole) (sym (loop_cut_none over h found)) popped
    loop_search (suc n) over h found fit r popped =
        subst (λ run. Truncates run whole) (sym (loop_cut_some over n h found))
          (loop_after_cut n r fit)

  loop-Truncates :
      (rounds : ℕ) (chunks : List (ContextChunk F))
      → 2 * length chunks + 1 ≤ rounds
      → Truncates (loop rounds chunks) chunks
  loop-Truncates zero chunks h = absurd (omega arith)
  loop-Truncates (suc rounds) [] h = ([], loop_empty rounds, inr refl, tt)
  loop-Truncates (suc rounds) (c ∷ cs) h =
      let chunks : List (ContextChunk F) = c ∷ cs in
      let popped : Truncates (loop rounds (pop_chunk chunks)) chunks =
        Truncates-after _ chunks (pop_chunk chunks) (pop_chunk-IsCut chunks)
          (loop-Truncates rounds (pop_chunk chunks) (omega (arith, length-pop_chunk chunks))) in
      elim (Bool-cases (leb (weight encode chunks) token_budget)) [
        | inl fit ↦ (chunks, loop_fits rounds chunks fit, inl (leb→le _ _ fit), IsCut-refl chunks)
        | inr over ↦ elim (Bool-cases (length (last_content chunks) == 0)) [
          | inl bare ↦
              subst (λ run. Truncates run chunks) (sym (loop_no_text rounds c cs over bare)) popped
          | inr some_text ↦
              let (low, found, longest) =
                search_cut-IsLongest
                  (cut_fits (Bpe.ready encode) token_budget chunks (last_content chunks))
                  (cut_passes rounds c cs) (cut_fits-passes rounds c cs)
                  (length (last_content chunks)) in
              loop_search rounds c cs low over some_text found longest.passes (omega arith) popped
        ]
      ]

  -- Where the encoder is ready, `truncate_to_budget` returns on every list of chunks, within the
  -- rounds that the model gives it. The result fits the budget unless it is empty, and it is the
  -- beginning of the given list, of whose last chunk the end of the content may be missing.
  pub truncate_to_budget-Truncates :
      (chunks : List (ContextChunk F))
      → (out : List (ContextChunk F)) × (truncate_to_budget (Bpe.ready encode) token_budget chunks
          ≡ ok out)
        × WithinBudget out
        × IsCut chunks out
  unfolding truncate_to_budget
  truncate_to_budget-Truncates chunks = loop-Truncates (2 * length chunks + 1) chunks (omega arith)
