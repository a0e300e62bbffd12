-- ===== src/Indexing/Run.antt =====
-- The whole of `index_path_with_embedder_source` (src/cli.rs), over an opened hash store.
use vektor.Common.{Bool, ◌&&◌, ◌==◌, List, [], ◌∷◌, if◌then◌else◌, zero}
use vektor.Common.Text.{Text}
use vektor.Common.Int.{ℤ}
use vektor.Common.Outcome.{Result}
use vektor.Common.Action.{Action, pure, gets, attempt, ◌>>=◌, ◌>>◌, for_each}
use vektor.FileState.{FileStatus, HashStore, Host, set_hash}
use vektor.Indexing.{
  IndexRunOptions, IndexFile, IndexStats, no_stats, PendingFile, EmbedderSource, resolved_embedder,
  Files, VectorWriter, TextIndexWriter, IndexRun, on_hash_store, on_store, on_text_index,
}
use vektor.Indexing.Collect.{collect_files}
use vektor.Indexing.Write.{write_pending}

module _ {E S T : Type 0} (host : Host) (vectors : VectorWriter E S) (texts : TextIndexWriter T)
    (now_secs : ℤ) where
  -- A run that wrote anything compacts the store; a failure is only logged.
  unfoldable pub optimize_written : List PendingFile → Action (IndexRun E S T) Unit
  optimize_written [] = pure tt
  optimize_written (p ∷ ps) = attempt (on_store vectors.optimize) >> pure tt

  unfoldable pub mark_completed : Bool → IndexStats → Action (IndexRun E S T) Unit
  mark_completed mark_ready stats =
      if mark_ready && (stats.failed == zero)
      then on_store (vectors.mark_full_index_completed now_secs)
      else pure tt

  unfoldable pub mark_indexed : Text × Text → Action (IndexRun E S T) Unit
  mark_indexed file = on_hash_store (set_hash host file.0 file.1 FileStatus.indexed)

  -- What follows the writes: the commit, and only then the statuses.
  unfoldable pub finish : Bool → Action (IndexRun E S T) IndexStats
  finish mark_ready = do
    optimize_written (← gets (λ run. run.pending))
    on_text_index (texts.commit mark_ready)
    mark_completed mark_ready (← gets (λ run. run.stats))
    for_each mark_indexed (← gets (λ run. run.processed_files))
    gets (λ run. run.stats)

module _ {E S T : Type 0} (host : Host) (files : Files) (vectors : VectorWriter E S)
    (texts : TextIndexWriter T) (now_secs : ℤ) where
  unfoldable pub index_files : List IndexFile → IndexRunOptions → Action (IndexRun E S T) IndexStats
  index_files index_list options = do
    collect_files files host options.force index_list
    write_pending host vectors texts
    finish host vectors texts now_secs options.mark_text_index_ready

  -- The state in which a run starts.
  abbrev pub begin : HashStore → EmbedderSource E → S → T → IndexRun E S T
  begin hash_store embedder store text_index = record {
    hash_store = hash_store;
    embedder = resolved_embedder embedder;
    store = store;
    text_index = text_index;
    stats = no_stats;
    pending = [];
    processed_files = [];
  }

  unfoldable pub index_path_with_embedder_source :
      List IndexFile
      → EmbedderSource E
      → IndexRunOptions
      → HashStore
      → S
      → T
      → Result IndexStats × IndexRun E S T
  index_path_with_embedder_source index_list embedder options hash_store store text_index =
      index_files index_list options (begin hash_store embedder store text_index)
