-- ===== src/Indexing/Tests.antt =====
-- Runs of src/cli.rs over two files, where the stores are lists of what was written.
use vektor.Common.{
  true, false, some, none, List, [], ◌∷◌, ◌++◌, map, ◌≡◌, refl, inl, inr, length, if◌then◌else◌,
}
use vektor.Common.Text.{Text, codes, text_eq, lower, strip_prefix}
use vektor.Common.Int.{pos}
use vektor.Common.Outcome.{Result, ok, err, VektorError}
use vektor.Common.Action.{Ends, pure, ◌>>=◌, after, match_result, for_each, attempt}
use vektor.Chunker.Types.{Chunk}
use vektor.FileState.{
  FileStatus, HashStore, Host, as_str, find_row, get_pending, expand_data_dir, is_changed, get_hash,
  get_status, set_hash, statement, indexed_at_for, current_unix_epoch, parse_status, upsert,
  from_str, option_text_eq,
}
use vektor.FileState.Rows.{entry, set_hash-entry}
use vektor.Indexing.{
  IndexRunOptions, IndexFile, IndexStats, FileToReindex, EmbedderSource, Files, VectorWriter,
  TextIndexWriter, IndexRun, from_index_options, get_embedder, resolved_embedder,
}
use vektor.Indexing.Filter.{filter_index_files, file_matches_extensions}
use vektor.Indexing.Collect.{
  collect_files, collect_file, check_file, process_file, queue_file, fail_file, should_process,
  is_indexed,
}
use vektor.Indexing.Write.{write_pending, write_batch, write_text, fail_files, file_to_reindex}
use vektor.Indexing.Run.{
  index_path_with_embedder_source, index_files, finish, optimize_written, mark_completed,
  mark_indexed,
}
use vektor.Common.Batches.{chunks, chunks_go}
use vektor.Common.Sort.{sort_by, insert_by}
use vektor.Common.FilePath.{path_join, extension, file_name}
use vektor.Indexing.Commit.{index_path-unfinished}
use vektor.Indexing.Secrecy.{index_path-secret, with_contents}
use vektor.Indexing.Complete.Finished.{IsFinished, index_path-IsFinished}

abbrev quiet : Host
quiet = record {
  sqlite_failure = λ _. none;
  clock = λ n. some n;
  clock_error = [];
  overflow_error = [];
}

abbrev piece : Text → Text → Chunk
piece rel_path content = record {
  id = rel_path;
  content = content;
  content_hash = content;
  rel_path = rel_path;
  start_line = 1;
  end_line = 2;
  symbol_name = none;
  symbol_type = none;
  language = none;
}

abbrev file : Text → IndexFile
file name = record { path = name; rel_path = name }

-- Each file holds its own name; `k` is a secret.
abbrev disk : Files
disk = record {
  should_skip_file = λ p. text_eq p (codes "k");
  contains_secret = λ _. false;
  hash_file = λ p. ok p;
  read_file_lossy = λ p. ok p;
  chunk_file = λ p content. piece p content ∷ [];
  file_mtime_secs = λ _. pos 0;
}

abbrev vectors : VectorWriter Unit (List Text)
vectors = record {
  reindex_files = λ batch _ store. (
    ok (record { chunks = length batch; embedded = length batch; reused = 0 }),
    store ++ map (λ (f : FileToReindex). f.rel_path) batch,
  );
  optimize = pure tt;
  mark_full_index_completed = λ _. pure tt;
}

abbrev texts : TextIndexWriter (List Text)
texts = record {
  delete_by_file = λ _. pure tt;
  add_chunks = λ chunks index. (ok tt, index ++ map (λ (c : Chunk). c.rel_path) chunks);
  commit = λ _. pure tt;
}

abbrev both : List IndexFile
both = file (codes "k") ∷ file (codes "a") ∷ []

abbrev options : IndexRunOptions
options = record { force = false; mark_text_index_ready = true }

abbrev empty_store : HashStore
empty_store = record { rows = []; statements = 0 }

abbrev first_run : Result IndexStats × IndexRun Unit (List Text) (List Text)
first_run =
    index_path_with_embedder_source quiet disk vectors texts (pos 5) both (EmbedderSource.ready tt)
      options empty_store [] []

index_path-IsFinished_example :
    Ends
      (IsFinished Unit (List Text) (List Text) quiet vectors texts (pos 5) (codes "a"))
      (λ _. Unit {0})
      first_run
unfolding text_eq
index_path-IsFinished_example =
    index_path-IsFinished Unit (List Text) (List Text) quiet vectors texts (pos 5) (codes "a") disk
      both (EmbedderSource.ready tt) options empty_store [] [] refl (inr (inl refl))

-- The other file is indexed, and the secret is counted.
first_run_result :
    first_run.0
    ≡ ok (record {
      files = 2;
      changed = 1;
      unchanged = 0;
      failed = 0;
      chunks = 1;
      embeddings = 1;
      reused = 0;
      skipped_secrets = 1;
    })
unfolding index_path_with_embedder_source index_files collect_files collect_file check_file
    process_file queue_file fail_file should_process is_indexed write_pending write_batch write_text
    fail_files file_to_reindex finish optimize_written mark_completed mark_indexed get_hash
    get_status set_hash statement indexed_at_for current_unix_epoch parse_status find_row upsert
    as_str from_str option_text_eq text_eq ◌>>=◌ after match_result for_each attempt chunks
    chunks_go get_embedder resolved_embedder
first_run_result = refl

abbrev broken : TextIndexWriter (List Text)
broken = record texts { commit = λ _ index. (err (VektorError.storage []), index) }

abbrev old_store : HashStore
old_store = record {
  rows =
      record {
        rel_path = codes "b";
        hash = codes "h";
        status = codes "indexed";
        indexed_at = some 1;
      }
      ∷ [];
  statements = 0;
}

index_path-unfinished_example :
    entry (codes "b") old_store ≡ some (codes "h", as_str FileStatus.indexed)
unfolding index_path_with_embedder_source index_files collect_files collect_file check_file
    process_file queue_file fail_file should_process is_indexed write_pending write_batch write_text
    fail_files file_to_reindex finish optimize_written mark_completed mark_indexed get_hash
    get_status set_hash statement indexed_at_for current_unix_epoch parse_status find_row upsert
    as_str from_str option_text_eq text_eq ◌>>=◌ after match_result for_each attempt chunks
    chunks_go get_embedder resolved_embedder
index_path-unfinished_example =
    index_path-unfinished quiet disk vectors broken (pos 5) (codes "b") (codes "h") old_store
      (λ _. VektorError.storage []) (λ _ _. refl) both (EmbedderSource.ready tt) options [] [] refl

index_path-secret_example :
    index_path_with_embedder_source quiet disk vectors texts
      (pos 5)
      both
      (EmbedderSource.ready tt)
      options
      empty_store
      []
      []
    ≡ index_path_with_embedder_source quiet
        (with_contents disk disk.hash_file
          (λ p. ok (if text_eq p (codes "k") then codes "key" else p))
          disk.file_mtime_secs)
        vectors
        texts
        (pos 5)
        both
        (EmbedderSource.ready tt)
        options
        empty_store
        []
        []
unfolding text_eq
index_path-secret_example =
    index_path-secret disk disk.hash_file
      (λ p. ok (if text_eq p (codes "k") then codes "key" else p)) disk.file_mtime_secs quiet
      vectors texts (pos 5) both (EmbedderSource.ready tt) options empty_store [] []
      (inl refl, (inr (refl, refl, refl), tt))

set_hash-entry_example :
    Ends
      (λ _ store. entry (codes "a") store ≡ some (codes "h", as_str FileStatus.pending))
      (λ store. entry (codes "a") store ≡ none)
      (set_hash quiet (codes "a") (codes "h") FileStatus.pending empty_store)
unfolding text_eq find_row
set_hash-entry_example =
    set_hash-entry quiet (codes "a") (codes "h") (codes "a") FileStatus.pending empty_store

waiting_file :
    (get_pending quiet (record {
      rows =
          record {
            rel_path = codes "z";
            hash = codes "h";
            status = codes "pending";
            indexed_at = none;
          }
          ∷ [];
      statements = 0;
    })).0
    ≡ ok (codes "z" ∷ [])
unfolding get_pending statement text_eq ◌>>=◌ after sort_by insert_by
waiting_file = refl

changed_file : (is_changed quiet (ok (codes "b")) (ok (codes "i")) old_store).0 ≡ ok true
unfolding is_changed get_hash statement text_eq option_text_eq ◌>>=◌ after find_row
changed_file = refl

home_expands : expand_data_dir (some (codes "/h")) path_join (codes "~/d") ≡ ok (codes "/h/d")
unfolding expand_data_dir strip_prefix text_eq path_join
home_expands = refl

new_index_is_forced :
    (from_index_options (record { force = false; extensions = none }) false true).force ≡ true
unfolding from_index_options
new_index_is_forced = refl

only_rust :
    filter_index_files (file (codes "a.rs") ∷ file (codes "b.md") ∷ []) (some (codes "rs" ∷ []))
    ≡ file (codes "a.rs") ∷ []
unfolding filter_index_files file_matches_extensions extension file_name text_eq lower
only_rust = refl
