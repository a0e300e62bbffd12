-- ===== src/Indexing/Collect.antt =====
-- The first phase of `index_path_with_embedder_source` (src/cli.rs): the changed files.
use vektor.Common.{
  suc, ◌+◌, Bool, not, ◌||◌, Option, some, none, List, [], ◌∷◌, ◌++◌, filter, if◌then◌else◌, length,
  true, false,
}
use vektor.Common.Text.{Text}
use vektor.Common.Action.{Action, lift, modify, ◌>>=◌, ◌>>◌, for_each, match_result}
use vektor.Chunker.Types.{Chunk}
use vektor.FileState.{FileStatus, Host, option_text_eq, get_hash, get_status, set_hash}
use vektor.Indexing.{IndexFile, Files, IndexRun, on_hash_store, on_stats}

-- `stored_status != Some(FileStatus::Indexed)`, negated.
unfoldable pub is_indexed : Option FileStatus → Bool
is_indexed none = false
is_indexed (some FileStatus.pending) = false
is_indexed (some FileStatus.indexed) = true
is_indexed (some FileStatus.failed) = false

unfoldable pub should_process : Bool → Option Text → Text → Option FileStatus → Bool
should_process force stored_hash current_hash stored_status =
    force || not (option_text_eq stored_hash (some current_hash)) || not (is_indexed stored_status)

module _ {E S T : Type 0} (host : Host) where
  unfoldable pub fail_file : Text → Text → Action (IndexRun E S T) Unit
  fail_file rel_path content_hash = do
    on_stats λ stats. record stats { failed = suc stats.failed }
    on_hash_store (set_hash host rel_path content_hash FileStatus.failed)

module _ (files : Files) where
  abbrev pub has_secret : Chunk → Bool
  has_secret chunk = files.contains_secret chunk.content

  -- The chunks that may be embedded.
  abbrev pub safe_chunks : List Chunk → List Chunk
  safe_chunks = filter λ chunk. not (has_secret chunk)

  module _ {E S T : Type 0} (host : Host) where
    -- The chunks of a file that was read go to the pending files, but for those with a secret.
    unfoldable pub queue_file : IndexFile → Text → Text → Action (IndexRun E S T) Unit
    queue_file file current_hash content = do
      let all_chunks = files.chunk_file file.rel_path content
      on_stats λ stats. record stats {
        skipped_secrets = stats.skipped_secrets + length (filter has_secret all_chunks);
      }
      modify λ run. record run {
        pending =
            run.pending
            ++ (record {
              rel_path = file.rel_path;
              content_hash = current_hash;
              chunks = safe_chunks all_chunks;
              last_modified = files.file_mtime_secs file.path;
            }
                ∷ []);
      }

    unfoldable pub process_file : IndexFile → Text → Action (IndexRun E S T) Unit
    process_file file current_hash = do
      on_stats λ stats. record stats { changed = suc stats.changed }
      on_hash_store (set_hash host file.rel_path current_hash FileStatus.pending)
      match_result (files.read_file_lossy file.path)
          (λ content. queue_file file current_hash content)
          (λ e. fail_file host file.rel_path current_hash)

    unfoldable pub check_file : Bool → IndexFile → Action (IndexRun E S T) Unit
    check_file force file = do
      current_hash ← lift (files.hash_file file.path)
      stored_hash ← on_hash_store (get_hash host file.rel_path)
      stored_status ← on_hash_store (get_status host file.rel_path)
      if should_process force stored_hash current_hash stored_status
          then process_file file current_hash
          else on_stats (λ stats. record stats { unchanged = suc stats.unchanged })

    -- One round of the loop over the files.
    unfoldable pub collect_file : Bool → IndexFile → Action (IndexRun E S T) Unit
    collect_file force file = do
      on_stats λ stats. record stats { files = suc stats.files }
      if files.should_skip_file file.rel_path
          then on_stats (λ stats. record stats { skipped_secrets = suc stats.skipped_secrets })
          else check_file force file

    unfoldable pub collect_files : Bool → List IndexFile → Action (IndexRun E S T) Unit
    collect_files force = for_each (collect_file force)
