-- ===== src/Indexing/Complete/Collected.antt =====
-- The first phase of an index run (src/cli.rs) handles every file that is no secret.
use vektor.Common.{
  ◌<◌, Bool, false, Option, some, none, List, [], ◌∷◌, ◌≡◌, refl, subst, arith, inl, inr, ◌⊎◌, Any,
  Any-append_left, Any-append_right, ap, ◌∙◌,
}
use vektor.Common.Text.{Text}
use vektor.Common.Outcome.{Result, ok, err}
use vektor.Common.Action.{
  Ends, Gives, Gives-kept, Gives-bind, Gives-match, Gives-if, Gives-imp, Gives-pre, Gives-for_each,
  ◌>>=◌, after,
}
use vektor.FileState.{FileStatus, HashStore, Host, as_str, find_row, get_hash, get_status}
use vektor.FileState.Rows.{entry, entry_of, get_hash-rows, get_status-rows, get_status-entry}
use vektor.Indexing.{IndexRun, IndexFile, Files, on_hash_store}
use vektor.Indexing.Collect.{
  is_indexed, should_process, fail_file, queue_file, process_file, check_file, collect_file,
  collect_files,
}
use vektor.Indexing.Complete.{IsIndexed, IsAt, IsHandled, set_pending-Gives}

module _ (E S T : Type 0) (files : Files) (host : Host) (key : Text) where
  abbrev pub Handled : IndexRun E S T → Type 0
  Handled = IsHandled E S T host key

  -- Before the round of a file.
  abbrev Due : Text → IndexRun E S T → Type 0
  Due p run = (p ≡ key) ⊎ Handled run

  fail_file-Gives :
      (P : IndexRun E S T → Type 0) (p h : Text)
      → Gives P (fail_file host p h) (λ _ run. 0 < run.stats.failed)
  unfolding fail_file
  fail_file-Gives P p h =
      Gives-bind P (λ _ run. 0 < run.stats.failed) (λ _ run. 0 < run.stats.failed) _ _
        (Gives-kept P (λ run. 0 < run.stats.failed) _ (λ run _. omega arith))
        (λ _. Gives-kept (λ run. 0 < run.stats.failed) (λ run. 0 < run.stats.failed) _ (λ run h. h))

  fails : (P : IndexRun E S T → Type 0) (p h : Text) → Gives P (fail_file host p h) (λ _. Handled)
  fails P p h =
      Gives-imp P (λ _ run. 0 < run.stats.failed) (λ _. Handled) (fail_file host p h)
        (λ _ run failed. inl failed) (fail_file-Gives P p h)

  queue_file-Gives :
      (file : IndexFile) (hash content : Text)
      → Gives (Due file.rel_path) (queue_file files host file hash content) (λ _. Handled)
  unfolding queue_file ◌>>=◌ after Gives
  queue_file-Gives file hash content run (inl same) =
      inr (inr (Any-append_right (IsAt key) run.pending _ (inl same)))
  queue_file-Gives file hash content run (inr (inl failed)) = inl failed
  queue_file-Gives file hash content run (inr (inr (inl done))) = inr (inl done)
  queue_file-Gives file hash content run (inr (inr (inr waits))) =
      inr (inr (Any-append_left (IsAt key) run.pending _ waits))

  process_file-Gives :
      (file : IndexFile) (hash : Text)
      → Gives (Due file.rel_path) (process_file files host file hash) (λ _. Handled)
  unfolding process_file
  process_file-Gives file hash =
      Gives-bind (Due file.rel_path) (λ _. Due file.rel_path) (λ _. Handled) _ _
        (Gives-kept (Due file.rel_path) (Due file.rel_path) _ (λ run due. due))
        λ _.
          Gives-bind (Due file.rel_path) (λ _. Due file.rel_path) (λ _. Handled) _ _
            (set_pending-Gives E S T host key file.rel_path hash)
            λ _.
              Gives-match (Due file.rel_path) (λ _. Handled) (files.read_file_lossy file.path) _ _
                (λ content. queue_file-Gives file hash content)
                (λ e. fails (Due file.rel_path) file.rel_path hash)

  Due-kept :
      (p : Text) (run : IndexRun E S T) (store : HashStore)
      → store.rows ≡ run.hash_store.rows
      → Due p run
      → Due p (record run { hash_store = store })
  Due-kept p run store same (inl here) = inl here
  Due-kept p run store same (inr (inl failed)) = inr (inl failed)
  Due-kept p run store same (inr (inr (inl (hash, found)))) =
      inr (inr (inl (hash, ap (λ rows. entry_of (find_row key rows)) same ∙ found)))
  Due-kept p run store same (inr (inr (inr waits))) = inr (inr (inr waits))

  -- What a status that was read tells of the table.
  abbrev Knows : Text → Option FileStatus → IndexRun E S T → Type 0
  Knows p status run =
      Due p run × (status ≡ some FileStatus.indexed → p ≡ key → IsIndexed key run.hash_store)

  status_of :
      (p : Text) (run : IndexRun E S T)
      → Due p run
      → (out : Result (Option FileStatus) × HashStore) → out.1.rows ≡ run.hash_store.rows
      → Ends
          (λ read store.
            read ≡ some FileStatus.indexed
            → (h : Text) × (entry p store ≡ some (h, as_str FileStatus.indexed)))
          (λ _. Unit {0})
          out
      → Ends (Knows p) (λ _. Unit {0}) (out.0, record run { hash_store = out.1 })
  status_of p run due (err e, store) same h = tt
  status_of p run due (ok read, store) same h = (
    Due-kept p run store same due,
    λ e here.
        let (hash, found) = h e in
        (hash, subst (λ k. entry k store ≡ some (hash, as_str FileStatus.indexed)) here found),
  )

  get_status-Gives : (p : Text) → Gives (Due p) (on_hash_store (get_status host p)) (Knows p)
  unfolding Gives
  get_status-Gives p run due =
      status_of p run due (get_status host p run.hash_store) (get_status-rows host p run.hash_store)
        (get_status-entry host p FileStatus.indexed run.hash_store)

  unchanged :
      (force : Bool) (stored : Option Text) (hash : Text) (status : Option FileStatus)
      → should_process force stored hash status ≡ false
      → status ≡ some FileStatus.indexed
  unfolding should_process is_indexed
  unchanged force stored hash none h = absurd (ground arith)
  unchanged force stored hash (some FileStatus.pending) h = absurd (ground arith)
  unchanged force stored hash (some FileStatus.indexed) h = refl
  unchanged force stored hash (some FileStatus.failed) h = absurd (ground arith)

  settled :
      (p : Text) (status : Option FileStatus) (run : IndexRun E S T)
      → status ≡ some FileStatus.indexed
      → Knows p status run
      → Handled run
  settled p status run e (inl here, knows) = inr (inl (knows e here))
  settled p status run e (inr handled, knows) = handled

  check_file-Gives :
      (force : Bool) (file : IndexFile)
      → Gives (Due file.rel_path) (check_file files host force file) (λ _. Handled)
  unfolding check_file
  check_file-Gives force file =
      let p = file.rel_path in
      Gives-bind (Due p) (λ _. Due p) (λ _. Handled) _ _
        (Gives-kept (Due p) (Due p) _ (λ run due. due))
        λ hash.
          Gives-bind (Due p) (λ _. Due p) (λ _. Handled) _ _
            (Gives-kept (Due p) (Due p) _ (λ run due.
              Due-kept p run (get_hash host p run.hash_store).1
                (get_hash-rows host p run.hash_store) due))
            λ stored.
              Gives-bind (Due p) (Knows p) (λ _. Handled) _ _ (get_status-Gives p)
                λ status.
                  Gives-if (Knows p status) (λ _. Handled) (should_process force stored hash status)
                    _ _
                    (λ _.
                      Gives-pre (Due p) (Knows p status) (λ _. Handled) _ (λ run knows. knows.0)
                        (process_file-Gives file hash))
                    (λ e. Gives-kept (Knows p status) Handled _ (λ run knows.
                      settled p status run (unchanged force stored hash status e) knows))

  module _ (no_secret : files.should_skip_file key ≡ false) where
    collect_file-Gives :
        (force : Bool) (file : IndexFile)
        → Gives (Due file.rel_path) (collect_file files host force file) (λ _. Handled)
    unfolding collect_file
    collect_file-Gives force file =
        let p = file.rel_path in
        Gives-bind (Due p) (λ _. Due p) (λ _. Handled) _ _
          (Gives-kept (Due p) (Due p) _ (λ run due. due))
          λ _.
            Gives-if (Due p) (λ _. Handled) (files.should_skip_file p) _ _
              (λ skips. Gives-kept (Due p) Handled _ (λ run due. elim due [
                | inl here ↦ absurd (cc (ap files.should_skip_file here))
                | inr handled ↦ handled
              ]))
              (λ _. check_file-Gives force file)

    -- A file of the list that is left, or handled.
    abbrev pub Left : List IndexFile → IndexRun E S T → Type 0
    Left list run = Any (λ (f : IndexFile). f.rel_path ≡ key) list ⊎ Handled run

    collect_round :
        (force : Bool) (file : IndexFile) (rest : List IndexFile)
        → Gives (Left (file ∷ rest)) (collect_file files host force file) (λ _. Left rest)
    unfolding Gives
    collect_round force file rest run (inl (inl here)) =
        Gives-imp (Due file.rel_path) (λ _. Handled) (λ _. Left rest)
          (collect_file files host force file) (λ _ _. inr) (collect_file-Gives force file) run
          (inl here)
    collect_round force file rest run (inl (inr later)) =
        Gives-kept (λ _. Unit {0}) (Left rest) (collect_file files host force file)
          (λ _ _. inl later) run tt
    collect_round force file rest run (inr handled) =
        Gives-imp (Due file.rel_path) (λ _. Handled) (λ _. Left rest)
          (collect_file files host force file) (λ _ _. inr) (collect_file-Gives force file) run
          (inr handled)

    pub collect_files-Gives :
        (force : Bool) (list : List IndexFile)
        → Gives (Left list) (collect_files files host force list) (λ _. Left [])
    unfolding collect_files
    collect_files-Gives force list =
        Gives-for_each Left (collect_file files host force) (collect_round force) list
