-- ===== src/Indexing/Commit.antt =====
-- What an index run whose text commit fails leaves of the statuses (src/cli.rs).
use vektor.Common.{ap, ◌∙◌, [], ◌∷◌, Bool, true, some, List, ◌≡◌, ◌≢◌, sym}
use vektor.Common.Text.{Text, codes, text_eq, eq→text_eq}
use vektor.Common.Int.{ℤ}
use vektor.Common.Outcome.{err, VektorError}
use vektor.Common.Action.{Action, after, ◌>>=◌, attempt, Keeps, Keeps-bind, gets-Keeps}
use vektor.FileState.{FileStatus, HashStore, Host, as_str, find_row, get_hash, get_status, set_hash}
use vektor.FileState.Rows.{entry, entry_of, entry-set_hash_old, get_hash-rows, get_status-rows}
use vektor.Indexing.{
  IndexFile, IndexRunOptions, EmbedderSource, Files, VectorWriter, TextIndexWriter, IndexRun,
  on_text_index, PendingFile,
}
use vektor.Indexing.Run.{
  begin, optimize_written, finish, index_files, index_path_with_embedder_source,
}
use vektor.Indexing.Indexed

module _ (host : Host) (key hash : Text) (first : HashStore) where
  -- An entry that is indexed was so in the first store.
  abbrev OnlyOld : HashStore → Type 0
  OnlyOld store =
      entry key store ≡ some (hash, as_str FileStatus.indexed)
      → entry key first ≡ some (hash, as_str FileStatus.indexed)

  marks-OnlyOld :
      (status : FileStatus)
      → as_str status ≢ as_str FileStatus.indexed
      → (p h : Text) (store : HashStore) → OnlyOld store
      → OnlyOld (set_hash host p h status store).1
  marks-OnlyOld status differ p h store old e =
      old (entry-set_hash_old host p h key status FileStatus.indexed hash store differ e)

  get_hash-OnlyOld :
      (p : Text) (store : HashStore) → OnlyOld store → OnlyOld (get_hash host p store).1
  get_hash-OnlyOld p store old e =
      old (sym (ap (λ rows. entry_of (find_row key rows)) (get_hash-rows host p store)) ∙ e)

  get_status-OnlyOld :
      (p : Text) (store : HashStore) → OnlyOld store → OnlyOld (get_status host p store).1
  get_status-OnlyOld p store old e =
      old (sym (ap (λ rows. entry_of (find_row key rows)) (get_status-rows host p store)) ∙ e)

pending-differs : as_str FileStatus.pending ≢ as_str FileStatus.indexed
unfolding as_str text_eq
pending-differs e =
    let h : text_eq (codes "pending") (codes "indexed") ≡ true = eq→text_eq _ _ e in cc h

failed-differs : as_str FileStatus.failed ≢ as_str FileStatus.indexed
unfolding as_str text_eq
failed-differs e =
    let h : text_eq (codes "failed") (codes "indexed") ≡ true = eq→text_eq _ _ e in cc h

module _ {E S T : Type 0} (host : Host) (files : Files) (vectors : VectorWriter E S)
    (texts : TextIndexWriter T) (now_secs : ℤ) (key hash : Text) (first : HashStore)
    (error : T → VektorError)
    (commit_fails : (mark : Bool) (t : T) → (texts.commit mark t).0 ≡ err (error t)) where
  abbrev Old : IndexRun E S T → Type 0
  Old run = OnlyOld host key hash first run.hash_store

  commit_step-Keeps :
      {A : Type 0} (mark : Bool) (next : Action (IndexRun E S T) A)
      → Keeps Old (on_text_index (texts.commit mark) >>= λ _. next)
  unfolding Keeps ◌>>=◌ after
  commit_step-Keeps mark next run old = rw (commit_fails mark run.text_index) old

  optimize_written-Keeps :
      (pending : List PendingFile)
      → Keeps Old (optimize_written host vectors texts now_secs pending)
  unfolding optimize_written Keeps ◌>>=◌ after attempt
  optimize_written-Keeps [] run old = old
  optimize_written-Keeps (p ∷ ps) run old = old

  finish-Keeps : (mark : Bool) → Keeps Old (finish host vectors texts now_secs mark)
  unfolding finish
  finish-Keeps mark =
      Keeps-bind Old _ _ (gets-Keeps Old _)
        λ pending. Keeps-bind Old _ _ (optimize_written-Keeps pending) λ _. commit_step-Keeps mark _

  index_files-Keeps :
      (list : List IndexFile) (options : IndexRunOptions)
      → Keeps Old (index_files host files vectors texts now_secs list options)
  unfolding index_files
  index_files-Keeps list options =
      let Q = OnlyOld host key hash first in
      let reads_hash = get_hash-OnlyOld host key hash first in
      let reads_status = get_status-OnlyOld host key hash first in
      let pending = marks-OnlyOld host key hash first FileStatus.pending pending-differs in
      let failed = marks-OnlyOld host key hash first FileStatus.failed failed-differs in
      Keeps-bind Old _ _
        (Indexed.collect_files-Keeps host files vectors texts Q reads_hash reads_status pending
          failed options.force list)
        λ _.
          Keeps-bind Old _ _
            (Indexed.write_pending-Keeps host files vectors texts Q reads_hash reads_status pending
              failed)
            λ _. finish-Keeps options.mark_text_index_ready

  -- Where the text index cannot commit, a run marks no file as indexed: an entry of status indexed
  -- afterwards stood in the table, with the same hash, before the run.
  pub index_path-unfinished :
      (list : List IndexFile) (embedder : EmbedderSource E) (options : IndexRunOptions) (store : S)
      (text_index : T)
      → entry key
          (index_path_with_embedder_source host files vectors texts now_secs list embedder options
            first store text_index).1.hash_store
        ≡ some (hash, as_str FileStatus.indexed)
      → entry key first ≡ some (hash, as_str FileStatus.indexed)
  unfolding index_path_with_embedder_source Keeps
  index_path-unfinished list embedder options store text_index =
      index_files-Keeps list options
        (begin host files vectors texts now_secs first embedder store text_index) (λ e. e)
