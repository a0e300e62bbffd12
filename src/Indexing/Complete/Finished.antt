-- ===== src/Indexing/Complete/Finished.antt =====
-- The whole of an index run that succeeds (src/cli.rs).
use vektor.Common.{◌<◌, Bool, false, List, [], ◌∷◌, ◌≡◌, inl, inr, ◌⊎◌, Any, ◌&&◌, ◌==◌, zero}
use vektor.Common.Text.{Text}
use vektor.Common.Int.{ℤ}
use vektor.Common.Action.{
  Ends, Gives, Gives-kept, Gives-bind, Gives-if, Gives-pre, Gives-for_each, gets, attempt, ◌>>=◌,
  after,
}
use vektor.FileState.{FileStatus, HashStore, Host}
use vektor.Indexing.{
  IndexRun, IndexFile, IndexStats, IndexRunOptions, EmbedderSource, PendingFile, Files,
  VectorWriter, TextIndexWriter,
}
use vektor.Indexing.Run.{
  begin, optimize_written, mark_completed, mark_indexed, finish, index_files,
  index_path_with_embedder_source,
}
use vektor.Indexing.Complete.{IsHandled, IsIndexed, IsIndexed-same, set_hash-Gives}
use vektor.Indexing.Complete.Collected
use vektor.Indexing.Complete.Written.{Settled, LeftBatches, write_pending-Settled}

module _ (E S T : Type 0) (host : Host) (vectors : VectorWriter E S) (texts : TextIndexWriter T)
    (now_secs : ℤ) (key : Text) where
  abbrev Ready : IndexRun E S T → Type 0
  Ready = Settled E S T host vectors texts key

  optimize_written-Ready :
      (pending : List PendingFile)
      → Gives Ready (optimize_written host vectors texts now_secs pending) (λ _. Ready)
  unfolding optimize_written attempt ◌>>=◌ after
  optimize_written-Ready [] = Gives-kept Ready Ready _ (λ run ready. ready)
  optimize_written-Ready (p ∷ ps) = Gives-kept Ready Ready _ (λ run ready. ready)

  mark_completed-Ready :
      (mark_ready : Bool) (stats : IndexStats)
      → Gives Ready (mark_completed host vectors texts now_secs mark_ready stats) (λ _. Ready)
  unfolding mark_completed
  mark_completed-Ready mark_ready stats =
      Gives-if Ready (λ _. Ready) (mark_ready && (stats.failed == zero)) _ _
        (λ _. Gives-kept Ready Ready _ (λ run ready. ready))
        (λ _. Gives-kept Ready Ready _ (λ run ready. ready))

  -- A file that was written and is still to be marked.
  abbrev ToMark : List (Text × Text) → IndexRun E S T → Type 0
  ToMark processed run =
      (0 < run.stats.failed)
      ⊎ (IsIndexed key run.hash_store ⊎ Any (λ (file : Text × Text). file.0 ≡ key) processed)

  mark_round :
      (file : Text × Text) (rest : List (Text × Text))
      → Gives
          (ToMark (file ∷ rest))
          (mark_indexed host vectors texts now_secs file)
          (λ _. ToMark rest)
  unfolding mark_indexed
  mark_round file rest =
      set_hash-Gives E S T host key (ToMark (file ∷ rest)) (ToMark rest) file.0 file.1
        FileStatus.indexed
        λ run store e marked. elim marked [
          | inl failed ↦ inl failed
          | inr (inl done) ↦
              inr (inl (IsIndexed-same key file.0 file.1 run.hash_store store e (inr done)))
          | inr (inr (inl here)) ↦
              inr (inl (IsIndexed-same key file.0 file.1 run.hash_store store e (inl here)))
          | inr (inr (inr later)) ↦ inr (inr later)
        ]

  -- What a run that has succeeded leaves.
  abbrev pub IsFinished : IndexStats → IndexRun E S T → Type 0
  IsFinished stats run = (0 < stats.failed) ⊎ IsIndexed key run.hash_store

  to_mark : Gives Ready (gets (λ run. run.processed_files)) ToMark
  unfolding Gives
  to_mark run ready = ready

  counted : Gives (ToMark []) (gets (λ run. run.stats)) IsFinished
  unfolding Gives
  counted run (inl failed) = inl failed
  counted run (inr (inl done)) = inr done
  counted run (inr (inr none_)) = elim none_ [ ]

  finish-IsFinished :
      (mark_ready : Bool) → Gives Ready (finish host vectors texts now_secs mark_ready) IsFinished
  unfolding finish
  finish-IsFinished mark_ready =
      Gives-bind Ready (λ _. Ready) IsFinished _ _ (Gives-kept Ready Ready _ (λ run ready. ready))
        λ pending.
          Gives-bind Ready (λ _. Ready) IsFinished _ _ (optimize_written-Ready pending)
            λ _.
              Gives-bind Ready (λ _. Ready) IsFinished _ _
                (Gives-kept Ready Ready _ (λ run ready. ready))
                λ _.
                  Gives-bind Ready (λ _. Ready) IsFinished _ _
                    (Gives-kept Ready Ready _ (λ run ready. ready))
                    λ stats.
                      Gives-bind Ready (λ _. Ready) IsFinished _ _
                        (mark_completed-Ready mark_ready stats)
                        λ _. Gives-bind Ready ToMark IsFinished _ _ to_mark λ processed.
                          Gives-bind (ToMark processed) (λ _. ToMark []) IsFinished _ _
                            (Gives-for_each ToMark _ mark_round processed) λ _. counted

  index_files-IsFinished :
      (files : Files) (list : List IndexFile) (options : IndexRunOptions)
      (open_ : files.should_skip_file key ≡ false)
      → Gives
          (Collected.Left E S T files host key open_ list)
          (index_files host files vectors texts now_secs list options)
          IsFinished
  unfolding index_files
  index_files-IsFinished files list options open_ =
      let Before = Collected.Left E S T files host key open_ in
      let Waits = LeftBatches E S T host vectors texts key in
      Gives-bind (Before list) (λ _. Before []) IsFinished _ _
        (Collected.collect_files-Gives E S T files host key open_ options.force list)
        λ _.
          Gives-bind (Before []) (λ _. Waits []) IsFinished _ _
            (Gives-pre (IsHandled E S T host key) (Before []) (λ _. Waits []) _
              (λ run left. elim left [ inl none_ ↦ elim none_ [ ] | inr handled ↦ handled ])
              (write_pending-Settled E S T host vectors texts key))
            λ _.
              Gives-pre Ready (Waits []) IsFinished _
                (λ run left. elim left [ inl none_ ↦ elim none_ [ ] | inr ready ↦ ready ])
                (finish-IsFinished options.mark_text_index_ready)

  -- A run that succeeds and counts no failure leaves each file of its list with the status indexed,
  -- but for those that are skipped as secrets.
  pub index_path-IsFinished :
      (files : Files) (list : List IndexFile) (embedder : EmbedderSource E)
      (options : IndexRunOptions) (hash_store : HashStore) (store : S) (text_index : T)
      → files.should_skip_file key ≡ false
      → Any (λ (file : IndexFile). file.rel_path ≡ key) list
      → Ends IsFinished
          (λ _. Unit {0})
          (index_path_with_embedder_source host files vectors texts now_secs list embedder options
            hash_store store text_index)
  unfolding index_path_with_embedder_source Gives
  index_path-IsFinished files list embedder options hash_store store text_index open_ listed =
      index_files-IsFinished files list options open_
        (begin host files vectors texts now_secs hash_store embedder store text_index) (inl listed)
