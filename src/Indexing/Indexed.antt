-- ===== src/Indexing/Indexed.antt =====
-- When src/cli.rs marks a file as indexed.
use vektor.Common.{Bool, List}
use vektor.Common.Text.{Text}
use vektor.Common.Batches.{chunks}
use vektor.Common.Action.{
  Action, after, attempt, ◌>>=◌, Keeps, Keeps-bind, Keeps-if, Keeps-match, Keeps-for_each,
}
use vektor.FileState.{FileStatus, HashStore, Host, get_hash, get_status, set_hash}
use vektor.Indexing.{
  IndexFile, PendingFile, Files, VectorWriter, TextIndexWriter, IndexRun, on_hash_store,
}
use vektor.Indexing.Collect.{
  fail_file, queue_file, process_file, check_file, collect_file, collect_files, should_process,
}
use vektor.Indexing.Write.{fail_files, write_text, write_batch, write_pending, reindex_file_batch}

-- A predicate of the hash store that both phases keep: reads keep it, and marking a file as pending
-- or failed does.
module _ {E S T : Type 0} (host : Host) (files : Files) (vectors : VectorWriter E S)
    (texts : TextIndexWriter T) (Q : HashStore → Type 0)
    (reads_hash : (p : Text) (s : HashStore) → Q s → Q (get_hash host p s).1)
    (reads_status : (p : Text) (s : HashStore) → Q s → Q (get_status host p s).1)
    (marks_pending : (p h : Text) (s : HashStore)
      → Q s
      → Q (set_hash host p h FileStatus.pending s).1)
    (marks_failed : (p h : Text) (s : HashStore)
      → Q s
      → Q (set_hash host p h FileStatus.failed s).1) where
  abbrev P : IndexRun E S T → Type 0
  P run = Q run.hash_store

  -- A call on the hash store, and one that leaves it alone.
  on_hash_store-Keeps :
      {A : Type 0} (call : Action HashStore A)
      → ((s : HashStore) → Q s → Q (call s).1)
      → Keeps P (on_hash_store call)
  unfolding Keeps
  on_hash_store-Keeps call keeps run k = keeps run.hash_store k

  elsewhere :
      {A : Type 0} (m : Action (IndexRun E S T) A)
      → ((run : IndexRun E S T) → Q run.hash_store → Q (m run).1.hash_store)
      → Keeps P m
  unfolding Keeps
  elsewhere m same = same

  fail_file-Keeps : (p h : Text) → Keeps P (fail_file host p h)
  unfolding fail_file
  fail_file-Keeps p h =
      Keeps-bind P _ _ (elsewhere _ (λ run k. k)) λ _. on_hash_store-Keeps _ (marks_failed p h)

  queue_file-Keeps :
      (file : IndexFile) (hash content : Text) → Keeps P (queue_file files host file hash content)
  unfolding queue_file ◌>>=◌ after
  queue_file-Keeps file hash content = elsewhere _ (λ run k. k)

  process_file-Keeps :
      (file : IndexFile) (hash : Text) → Keeps P (process_file files host file hash)
  unfolding process_file
  process_file-Keeps file hash = Keeps-bind P _ _ (elsewhere _ (λ run k. k)) λ _.
      Keeps-bind P _ _ (on_hash_store-Keeps _ (marks_pending file.rel_path hash)) λ _.
        Keeps-match P _ _ _ (queue_file-Keeps file hash) (λ _. fail_file-Keeps file.rel_path hash)

  check_file-Keeps : (force : Bool) (file : IndexFile) → Keeps P (check_file files host force file)
  unfolding check_file
  check_file-Keeps force file = Keeps-bind P _ _ (elsewhere _ (λ run k. k)) λ hash.
      Keeps-bind P _ _ (on_hash_store-Keeps _ (reads_hash file.rel_path)) λ stored.
        Keeps-bind P _ _ (on_hash_store-Keeps _ (reads_status file.rel_path)) λ status.
          Keeps-if P (should_process force stored hash status) _ _ (process_file-Keeps file hash)
            (elsewhere _ (λ run k. k))

  collect_file-Keeps :
      (force : Bool) (file : IndexFile) → Keeps P (collect_file files host force file)
  unfolding collect_file
  collect_file-Keeps force file = Keeps-bind P _ _ (elsewhere _ (λ run k. k)) λ _.
      Keeps-if P (files.should_skip_file file.rel_path) _ _ (elsewhere _ (λ run k. k))
        (check_file-Keeps force file)

  pub collect_files-Keeps :
      (force : Bool) (list : List IndexFile) → Keeps P (collect_files files host force list)
  unfolding collect_files
  collect_files-Keeps force list = Keeps-for_each P _ (collect_file-Keeps force) list

  fail_files-Keeps : (batch : List PendingFile) → Keeps P (fail_files host vectors texts batch)
  unfolding fail_files
  fail_files-Keeps batch = Keeps-for_each P _ (λ p. fail_file-Keeps p.rel_path p.content_hash) batch

  write_text-Keeps : (p : PendingFile) → Keeps P (write_text host vectors texts p)
  unfolding write_text attempt
  write_text-Keeps p = Keeps-bind P _ _ (elsewhere _ (λ run k. k)) λ written.
      Keeps-match P written _ _ (λ _. elsewhere _ (λ run k. k))
        λ _.
          Keeps-bind P _ _ (elsewhere _ (λ run k. k)) λ _. fail_file-Keeps p.rel_path p.content_hash

  write_batch-Keeps : (batch : List PendingFile) → Keeps P (write_batch host vectors texts batch)
  unfolding write_batch attempt
  write_batch-Keeps batch = Keeps-bind P _ _ (elsewhere _ (λ run k. k)) λ embedder.
      Keeps-bind P _ _ (elsewhere _ (λ run k. k)) λ reindexed.
        Keeps-match P reindexed _ _
          (λ reindex.
            Keeps-bind P _ _ (elsewhere _ (λ run k. k))
              λ _. Keeps-for_each P _ write_text-Keeps batch)
          (λ _. fail_files-Keeps batch)

  pub write_pending-Keeps : Keeps P (write_pending host vectors texts)
  unfolding write_pending
  write_pending-Keeps =
      Keeps-bind P _ _ (elsewhere _ (λ run k. k))
        λ pending. Keeps-for_each P _ write_batch-Keeps (chunks reindex_file_batch pending)
