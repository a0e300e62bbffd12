-- ===== src/Context/Assembler/Allocate/State.antt =====
-- The selection and the refill loop of `allocate_budget` in src/context/assembler.rs: what their
-- variables hold.
use vektor.Common.{
  ℕ, ◌≤◌, true, false, List, [], ◌∷◌, ◌++◌, ◌≡◌, refl, sym, subst, inl, inr, ◌⊎◌, Bool-cases,
  length, ltb, arith, All, All-append, ◌&&◌,
}
use vektor.Common.Text.{Text, insert_text, dedup_texts}
use vektor.Common.Words.{saturating_add}
use vektor.Common.Float.{FloatOps}
use vektor.Common.Outcome.{Result, ok}
use vektor.Context.Types.{ContextChunk, AssemblyConfig}
use vektor.Context.Budget.{Bpe, estimate}
use vektor.Context.Assembler.Allocate.{
  refill, file_is_over, Selection, select_chunk, select_chunks, force_first, first_selection,
  heuristic_limit,
}
use vektor.Context.Assembler.Allocate.Fits.{weight, tokens-weight}
use vektor.Context.Assembler.Allocate.Files.{
  IsSelection, IsSelection-snoc, insert_below, distinct_files,
}

module _ {F : Type 0} (P : ContextChunk F → Type 0) (max_files bound : ℕ)
    (wide : max_files ≤ bound) where
  module _ (encode : Text → List ℕ) (token_budget floor : ℕ) where
    abbrev run_refill :
        List (ContextChunk F)
        → List Text
        → List (ContextChunk F)
        → ℕ
        → Result (List (ContextChunk F))
    run_refill = refill (Bpe.ready encode) token_budget floor max_files

    -- What the refill loop returns.
    abbrev Refills : Result (List (ContextChunk F)) → Type 0
    Refills run =
        (out : List (ContextChunk F)) × (run ≡ ok out)
        × All P out
        × (length (distinct_files out) ≤ bound)

    refill_done :
        (selected : List (ContextChunk F)) (files : List Text)
        → IsSelection P bound selected files
        → All P selected × (length (distinct_files selected) ≤ bound)
    refill_done selected files s = (s.chosen, rw (← s.known) s.few)

    module _ (next : ContextChunk F) (remaining : List (ContextChunk F)) (files : List Text)
        (selected : List (ContextChunk F)) (exact : ℕ) where
      abbrev candidate : List (ContextChunk F)
      candidate = selected ++ (next ∷ [])

      refill_stop :
          ltb exact floor ≡ false → run_refill (next ∷ remaining) files selected exact ≡ ok selected
      unfolding refill
      refill_stop h = ground arith

      refill_skip :
          ltb exact floor ≡ true
          → (file_is_over max_files files next ≡ true)
            ⊎ (ltb token_budget (weight encode candidate) ≡ true)
          → run_refill (next ∷ remaining) files selected exact
            ≡ run_refill remaining files selected exact
      unfolding refill
      refill_skip h k = ground (arith, tokens-weight encode candidate)

      refill_take :
          ltb exact floor ≡ true
          → file_is_over max_files files next ≡ false
          → ltb token_budget (weight encode candidate) ≡ false
          → run_refill (next ∷ remaining) files selected exact
            ≡ run_refill remaining
                (insert_text next.rel_path files)
                candidate
                (weight encode candidate)
      unfolding refill
      refill_take h k l = ground (arith, tokens-weight encode candidate)

    refill_empty :
        (files : List Text) (selected : List (ContextChunk F)) (exact : ℕ)
        → run_refill [] files selected exact ≡ ok selected
    unfolding refill
    refill_empty files selected exact = refl

    pub refill-Refills :
        (remaining : List (ContextChunk F)) (files : List Text) (selected : List (ContextChunk F))
        (exact : ℕ)
        → All P remaining
        → IsSelection P bound selected files
        → Refills (run_refill remaining files selected exact)
    refill-Refills [] files selected exact r s =
        let (chosen, few) = refill_done selected files s in
        (selected, refill_empty files selected exact, chosen, few)
    refill-Refills (next ∷ remaining) files selected exact r s =
        let whole = selected ++ (next ∷ []) in
        let skip = refill-Refills remaining files selected exact r.1 s in
        elim (Bool-cases (ltb exact floor)) [
          | inr stop ↦
              let (chosen, few) = refill_done selected files s in
              (selected, refill_stop next remaining files selected exact stop, chosen, few)
          | inl more ↦ elim (Bool-cases (file_is_over max_files files next)) [
            | inl over ↦
                subst Refills
                  (sym (refill_skip next remaining files selected exact more (inl over))) skip
            | inr free ↦ elim (Bool-cases (ltb token_budget (weight encode whole))) [
              | inl big ↦
                  subst Refills
                    (sym (refill_skip next remaining files selected exact more (inr big))) skip
              | inr fits ↦
                  subst Refills
                    (sym (refill_take next remaining files selected exact more free fits))
                    (refill-Refills remaining (insert_text next.rel_path files) whole
                      (weight encode whole) r.1
                      (IsSelection-snoc P bound selected files next s r.0
                        (insert_below max_files bound files next wide free s.few)))
            ]
          ]
        ]

  module _ (D : Type 0) ⦃d : FloatOps D⦄ where
    -- The state of the first loop.
    pub record IsState (st : Selection F) : Type 0 where
      pub taken : IsSelection P bound st.selected st.files
      pub left : All P st.remaining

    select_chunk-IsState :
        (limit : ℕ) (st : Selection F) (chunk : ContextChunk F)
        → IsState st
        → P chunk
        → IsState (select_chunk D limit max_files st chunk)
    unfolding select_chunk
    select_chunk-IsState limit st chunk s h =
        let kept : All P (st.remaining ++ (chunk ∷ [])) =
          All-append P st.remaining (chunk ∷ []) s.left (h, tt) in
        elim (Bool-cases (file_is_over max_files st.files chunk)) [
          | inl over ↦ rw over (record { taken = s.taken; left = kept })
          | inr free ↦
              elim (Bool-cases (
                ltb 0 (length st.selected)
                && ltb limit
                    (saturating_add st.estimate_used (estimate D chunk.content chunk.language)))) [
                      | inl full ↦ rw (free, full) (record { taken = s.taken; left = kept })
                      | inr room ↦
                          rw (free, room)
                            (record {
                              taken =
                                  IsSelection-snoc P bound st.selected st.files chunk s.taken h (
                                    insert_below max_files bound st.files chunk wide free
                                      s.taken.few);
                              left = s.left;
                            })
                    ]
        ]

    select_chunks-IsState :
        (limit : ℕ) (st : Selection F) (chunks : List (ContextChunk F))
        → IsState st
        → All P chunks
        → IsState (select_chunks D limit max_files st chunks)
    unfolding select_chunks
    select_chunks-IsState limit st [] s h = s
    select_chunks-IsState limit st (chunk ∷ chunks) s h =
        select_chunks-IsState limit (select_chunk D limit max_files st chunk) chunks
          (select_chunk-IsState limit st chunk s h.0) h.1

    module _ (some_file : 1 ≤ bound) where
      force_first_parts :
          (selected remaining : List (ContextChunk F)) (used : ℕ) (files : List Text)
          → IsState (record {
            selected = selected;
            remaining = remaining;
            estimate_used = used;
            files = files;
          })
          → IsState (
              force_first D (record {
                selected = selected;
                remaining = remaining;
                estimate_used = used;
                files = files;
              }))
      unfolding force_first dedup_texts
      force_first_parts [] [] used files s = s
      force_first_parts [] (c ∷ cs) used files s =
          let none_yet : files ≡ [] = s.taken.known in
          record {
            taken = IsSelection-snoc P bound [] files c s.taken s.left.0 (rw none_yet some_file);
            left = s.left.1;
          }
      force_first_parts (x ∷ xs) remaining used files s = s

      pub first_selection-IsState :
          (config : AssemblyConfig F) (chunks : List (ContextChunk F))
          → config.max_files ≡ max_files
          → All P chunks
          → IsState (first_selection D config chunks)
      unfolding first_selection dedup_texts
      first_selection-IsState config chunks e h =
          let start : Selection F = record {
            selected = [];
            remaining = [];
            estimate_used = 0;
            files = [];
          } in
          let st = select_chunks D (heuristic_limit config.token_budget) max_files start chunks in
          rw e (
            force_first_parts st.selected st.remaining st.estimate_used st.files (
              select_chunks-IsState (heuristic_limit config.token_budget) start chunks
                (record {
                  taken = record { chosen = tt; known = refl; few = omega arith };
                  left = tt;
                })
                h))
