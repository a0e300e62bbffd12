-- ===== src/Indexing/Complete/Written.antt =====
-- The second phase of an index run, and its end (src/cli.rs): what becomes of a file that waits.
use vektor.Common.{
  ℕ, zero, suc, ◌<◌, List, [], ◌∷◌, ◌≡◌, arith, inl, inr, ◌⊎◌, Any, Any-append_left,
  Any-append_right, Any-append_cases, subst, sym, take-drop, length-drop_le, take, drop, length,
}
use vektor.Common.Text.{Text}
use vektor.Common.Batches.{chunks, chunks_go}
use vektor.Common.Action.{
  Gives, Gives-kept, Gives-bind, Gives-match, Gives-imp, Gives-pre, Gives-for_each, gets, attempt,
}
use vektor.FileState.{Host}
use vektor.Indexing.{IndexRun, PendingFile, VectorWriter, TextIndexWriter}
use vektor.Indexing.Collect.{fail_file}
use vektor.Indexing.Write.{fail_files, write_text, write_batch, write_pending, reindex_file_batch}
use vektor.Indexing.Complete.{IsIndexed, IsAt, IsHandled}

-- A file that waits stands in some batch.
Any-chunks :
    {A : Type 0} (P : A → Type 0) (fuel m : ℕ) (xs : List A)
    → length xs < suc fuel
    → Any P xs
    → Any (Any P) (chunks_go fuel (suc m) xs)
unfolding chunks_go
Any-chunks P fuel m [] h k = elim k [ ]
Any-chunks P zero m (x ∷ xs) h k = absurd (omega (arith, h))
Any-chunks P (suc fuel) m (x ∷ xs) h (inl here) = inl (inl here)
Any-chunks P (suc fuel) m (x ∷ xs) h (inr later) =
    elim (Any-append_cases P (take m xs) (drop m xs) (subst (Any P) (sym (take-drop m xs)) later)) [
      | inl first ↦ inl (inr first)
      | inr rest ↦
          inr (Any-chunks P fuel m (drop m xs) (omega (arith, h, length-drop_le m xs)) rest)
    ]

module _ (E S T : Type 0) (host : Host) (vectors : VectorWriter E S) (texts : TextIndexWriter T)
    (key : Text) where
  abbrev pub IsProcessed : Text × Text → Type 0
  IsProcessed file = file.0 ≡ key

  abbrev pub Settled : IndexRun E S T → Type 0
  Settled run =
      (0 < run.stats.failed) ⊎ (IsIndexed key run.hash_store ⊎ Any IsProcessed run.processed_files)

  fail_file-Settled :
      (P : IndexRun E S T → Type 0) (p h : Text) → Gives P (fail_file host p h) (λ _. Settled)
  unfolding fail_file
  fail_file-Settled P p h =
      Gives-bind P (λ _ run. 0 < run.stats.failed) (λ _. Settled) _ _
        (Gives-kept P (λ run. 0 < run.stats.failed) _ (λ run _. omega arith))
        (λ _. Gives-kept (λ run. 0 < run.stats.failed) Settled _ (λ run h. inl h))

  -- Before the round of a file, and while some are left.
  abbrev Due : PendingFile → IndexRun E S T → Type 0
  Due p run = IsAt key p ⊎ Settled run

  abbrev Left : List PendingFile → IndexRun E S T → Type 0
  Left list run = Any (IsAt key) list ⊎ Settled run

  fail_files-Settled :
      (batch : List PendingFile)
      → Gives (Left batch) (fail_files host vectors texts batch) (λ _. Left [])
  unfolding fail_files
  fail_files-Settled batch =
      Gives-for_each Left _
        (λ p rest.
          Gives-imp (Left (p ∷ rest)) (λ _. Settled) (λ _. Left rest) _ (λ _ _. inr)
            (fail_file-Settled (Left (p ∷ rest)) p.rel_path p.content_hash))
        batch

  write_text-Settled :
      (p : PendingFile) → Gives (Due p) (write_text host vectors texts p) (λ _. Settled)
  unfolding write_text attempt
  write_text-Settled p =
      Gives-bind (Due p) (λ _. Due p) (λ _. Settled) _ _
        (Gives-kept (Due p) (Due p) _ (λ run due. due))
        λ written.
          Gives-match (Due p) (λ _. Settled) written _ _
            (λ _. Gives-kept (Due p) Settled _ (λ run due. elim due [
              | inl here ↦ inr (inr (Any-append_right IsProcessed run.processed_files _ (inl here)))
              | inr (inl failed) ↦ inl failed
              | inr (inr (inl done)) ↦ inr (inl done)
              | inr (inr (inr waits)) ↦
                  inr (inr (Any-append_left IsProcessed run.processed_files _ waits))
            ]))
            (λ _.
              Gives-bind (Due p) (λ _. Due p) (λ _. Settled) _ _
                (Gives-kept (Due p) (Due p) _ (λ run due. due))
                (λ _. fail_file-Settled (Due p) p.rel_path p.content_hash))

  write_round :
      (p : PendingFile) (rest : List PendingFile)
      → Gives (Left (p ∷ rest)) (write_text host vectors texts p) (λ _. Left rest)
  unfolding Gives
  write_round p rest run (inl (inl here)) =
      Gives-imp (Due p) (λ _. Settled) (λ _. Left rest) _ (λ _ _. inr) (write_text-Settled p) run
        (inl here)
  write_round p rest run (inl (inr later)) =
      Gives-kept (λ _. Unit {0}) (Left rest) (write_text host vectors texts p) (λ _ _. inl later)
        run tt
  write_round p rest run (inr settled) =
      Gives-imp (Due p) (λ _. Settled) (λ _. Left rest) _ (λ _ _. inr) (write_text-Settled p) run
        (inr settled)

  write_batch-Settled :
      (batch : List PendingFile)
      → Gives (Left batch) (write_batch host vectors texts batch) (λ _. Settled)
  unfolding write_batch attempt
  write_batch-Settled batch =
      let none_left : Unit {0} → (run : IndexRun E S T) → Left [] run → Settled run =
        λ _ run left. elim left [ inl none_ ↦ elim none_ [ ] | inr settled ↦ settled ] in
      Gives-bind (Left batch) (λ _. Left batch) (λ _. Settled) _ _
        (Gives-kept (Left batch) (Left batch) _ (λ run left. left))
        λ embedder.
          Gives-bind (Left batch) (λ _. Left batch) (λ _. Settled) _ _
            (Gives-kept (Left batch) (Left batch) _ (λ run left. left))
            λ reindexed.
              Gives-imp (Left batch) (λ _. Left []) (λ _. Settled) _ none_left
                (Gives-match (Left batch) (λ _. Left []) reindexed _ _
                  (λ reindex.
                    Gives-bind (Left batch) (λ _. Left batch) (λ _. Left []) _ _
                      (Gives-kept (Left batch) (Left batch) _ (λ run left. left))
                      (λ _. Gives-for_each Left _ write_round batch))
                  (λ _. fail_files-Settled batch))

  abbrev pub LeftBatches : List (List PendingFile) → IndexRun E S T → Type 0
  LeftBatches batches run = Any (Any (IsAt key)) batches ⊎ Settled run

  batch_round :
      (batch : List PendingFile) (rest : List (List PendingFile))
      → Gives
          (LeftBatches (batch ∷ rest))
          (write_batch host vectors texts batch)
          (λ _. LeftBatches rest)
  unfolding Gives
  batch_round batch rest run (inl (inl here)) =
      Gives-imp (Left batch) (λ _. Settled) (λ _. LeftBatches rest) _ (λ _ _. inr)
        (write_batch-Settled batch) run (inl here)
  batch_round batch rest run (inl (inr later)) =
      Gives-kept (λ _. Unit {0}) (LeftBatches rest) (write_batch host vectors texts batch)
        (λ _ _. inl later) run tt
  batch_round batch rest run (inr settled) =
      Gives-imp (Left batch) (λ _. Settled) (λ _. LeftBatches rest) _ (λ _ _. inr)
        (write_batch-Settled batch) run (inr settled)

  waiting : Gives (IsHandled E S T host key) (gets (λ run. run.pending)) Left
  unfolding Gives
  waiting run (inl failed) = inr (inl failed)
  waiting run (inr (inl done)) = inr (inr (inl done))
  waiting run (inr (inr waits)) = inl waits

  batched :
      (pending : List PendingFile) (run : IndexRun E S T)
      → Left pending run
      → LeftBatches (chunks reindex_file_batch pending) run
  unfolding chunks
  batched pending run (inl waits) =
      inl (Any-chunks (IsAt key) (length pending) 99 pending (omega arith) waits)
  batched pending run (inr settled) = inr settled

  pub write_pending-Settled :
      Gives (IsHandled E S T host key) (write_pending host vectors texts) (λ _. LeftBatches [])
  unfolding write_pending
  write_pending-Settled =
      Gives-bind (IsHandled E S T host key) Left (λ _. LeftBatches []) _ _ waiting
        λ pending.
          Gives-pre (LeftBatches (chunks reindex_file_batch pending)) (Left pending)
            (λ _. LeftBatches []) _ (batched pending)
            (Gives-for_each LeftBatches _ batch_round (chunks reindex_file_batch pending))
