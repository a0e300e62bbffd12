-- ===== src/Indexing/Write.antt =====
-- The second phase of `index_path_with_embedder_source` (src/cli.rs): the writes, in batches.
use vektor.Common.{ℕ, ◌+◌, List, [], ◌∷◌, ◌++◌, map}
use vektor.Common.Batches.{chunks}
use vektor.Common.Action.{Action, gets, modify, attempt, ◌>>=◌, ◌>>◌, for_each, match_result}
use vektor.FileState.{Host}
use vektor.Indexing.{
  IndexStats, PendingFile, FileToReindex, ReindexStats, get_embedder, VectorWriter, TextIndexWriter,
  IndexRun, on_embedder, on_store, on_text_index, on_stats,
}
use vektor.Indexing.Collect.{fail_file}

abbrev pub reindex_file_batch : ℕ
reindex_file_batch = 100

unfoldable pub file_to_reindex : PendingFile → FileToReindex
file_to_reindex p = record {
  rel_path = p.rel_path;
  chunks = p.chunks;
  last_modified = p.last_modified;
}

module _ {E S T : Type 0} (host : Host) (vectors : VectorWriter E S)
    (texts : TextIndexWriter T) where
  unfoldable pub fail_files : List PendingFile → Action (IndexRun E S T) Unit
  fail_files = for_each (λ (p : PendingFile). fail_file host p.rel_path p.content_hash)

  -- The text rows of one file; a failure cleans up and marks the file.
  unfoldable pub write_text : PendingFile → Action (IndexRun E S T) Unit
  write_text p = do
    written ← attempt (on_text_index (texts.delete_by_file p.rel_path >> texts.add_chunks p.chunks))
    match_result written
        (λ done. modify λ run. record run {
          processed_files = run.processed_files ++ ((p.rel_path, p.content_hash) ∷ []);
        })
        (λ e. do
          attempt (on_text_index (texts.delete_by_file p.rel_path))
          fail_file host p.rel_path p.content_hash)

  abbrev pub add_reindexed : ReindexStats → IndexStats → IndexStats
  add_reindexed reindex stats = record stats {
    chunks = stats.chunks + reindex.chunks;
    embeddings = stats.embeddings + reindex.embedded;
    reused = stats.reused + reindex.reused;
  }

  unfoldable pub write_batch : List PendingFile → Action (IndexRun E S T) Unit
  write_batch batch = do
    embedder ← on_embedder get_embedder
    reindexed ← attempt (on_store (vectors.reindex_files (map file_to_reindex batch) embedder))
    match_result reindexed
        (λ reindex. do on_stats (add_reindexed reindex); for_each write_text batch)
        (λ e. fail_files batch)

  unfoldable pub write_pending : Action (IndexRun E S T) Unit
  write_pending = do
    pending ← gets (λ run. run.pending)
    for_each write_batch (chunks reindex_file_batch pending)
