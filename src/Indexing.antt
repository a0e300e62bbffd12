-- ===== src/Indexing.antt =====
-- src/cli.rs: what an index run works on, and the embedder that it builds only when it needs one.
-- `E`, `S` and `T` stand for an embedder, the vector store and the text index.
pub mod Collect
pub mod Write
pub mod Run
pub mod Filter
pub mod Indexed
pub mod Commit
pub mod Secrecy
pub mod Complete
mod Tests
use vektor.Common.{
  ℕ, suc, ◌+◌, Bool, true, false, not, ◌||◌, Option, some, none, List, [], ◌∷◌, ◌++◌, map, filter,
  if◌then◌else◌, any,
}
use vektor.Common.Text.{Text, codes, text_eq, lower}
use vektor.Common.Int.{ℤ}
use vektor.Common.Outcome.{Result, ok, err, VektorError}
use vektor.Common.Action.{Action}
use vektor.Chunker.Types.{Chunk}
use vektor.FileState.{HashStore, Host}

pub record IndexOptions : Type 0 where
  pub force : Bool
  pub extensions : Option (List Text)

pub record IndexRunOptions : Type 0 where
  pub force : Bool
  pub mark_text_index_ready : Bool

unfoldable pub from_index_options : IndexOptions → Bool → Bool → IndexRunOptions
from_index_options options was_text_index_ready is_full_directory_path = record {
  force = options.force || not was_text_index_ready;
  mark_text_index_ready = was_text_index_ready || is_full_directory_path;
}

pub record IndexFile : Type 0 where
  pub path : Text
  pub rel_path : Text

pub record IndexStats : Type 0 where
  pub files : ℕ
  pub changed : ℕ
  pub unchanged : ℕ
  pub failed : ℕ
  pub chunks : ℕ
  pub embeddings : ℕ
  pub reused : ℕ
  pub skipped_secrets : ℕ

-- `IndexStats::default()`
abbrev pub no_stats : IndexStats
no_stats = record {
  files = 0;
  changed = 0;
  unchanged = 0;
  failed = 0;
  chunks = 0;
  embeddings = 0;
  reused = 0;
  skipped_secrets = 0;
}

pub record PendingFile : Type 0 where
  pub rel_path : Text
  pub content_hash : Text
  pub chunks : List Chunk
  pub last_modified : ℤ

pub record FileToReindex : Type 0 where
  pub rel_path : Text
  pub chunks : List Chunk
  pub last_modified : ℤ

pub record ReindexStats : Type 0 where
  pub chunks : ℕ
  pub embedded : ℕ
  pub reused : ℕ

-- The factory of a lazy source runs at most once, so it is its outcome.
pub data EmbedderSource (E : Type 0) : Type 0 where
  ready : E → EmbedderSource E
  lazy : Result E → EmbedderSource E

pub data ResolvedEmbedder (E : Type 0) : Type 0 where
  ready : E → ResolvedEmbedder E
  pending : Result E → ResolvedEmbedder E
  built : E → ResolvedEmbedder E
  poisoned : ResolvedEmbedder E

module _ {E : Type 0} where
  -- `ResolvedEmbedder::new`
  unfoldable pub resolved_embedder : EmbedderSource E → ResolvedEmbedder E
  resolved_embedder (EmbedderSource.ready embedder) = ResolvedEmbedder.ready embedder
  resolved_embedder (EmbedderSource.lazy factory) = ResolvedEmbedder.pending factory

  -- `ResolvedEmbedder::get`
  unfoldable pub get_embedder : Action (ResolvedEmbedder E) E
  get_embedder (ResolvedEmbedder.ready embedder) = (ok embedder, ResolvedEmbedder.ready embedder)
  get_embedder (ResolvedEmbedder.pending (ok embedder)) =
      (ok embedder, ResolvedEmbedder.built embedder)
  get_embedder (ResolvedEmbedder.pending (err e)) = (err e, ResolvedEmbedder.poisoned)
  get_embedder (ResolvedEmbedder.built embedder) = (ok embedder, ResolvedEmbedder.built embedder)
  get_embedder ResolvedEmbedder.poisoned = (
    err (VektorError.embedding (codes "embedder construction failed earlier in this run")),
    ResolvedEmbedder.poisoned,
  )

-- What a run reads of the files: their bytes, their chunks and which of them hold secrets.
pub record Files : Type 0 where
  pub should_skip_file : Text → Bool
  pub contains_secret : Text → Bool
  pub hash_file : Text → Result Text
  pub read_file_lossy : Text → Result Text
  pub chunk_file : Text → Text → List Chunk
  pub file_mtime_secs : Text → ℤ

-- The methods of `VectorStore` that a run calls.
pub record VectorWriter (E S : Type 0) : Type 0 where
  pub reindex_files : List FileToReindex → E → Action S ReindexStats
  pub optimize : Action S Unit
  pub mark_full_index_completed : ℤ → Action S Unit

pub record TextIndexWriter (T : Type 0) : Type 0 where
  pub delete_by_file : Text → Action T Unit
  pub add_chunks : List Chunk → Action T Unit
  pub commit : Bool → Action T Unit

-- The objects and the local variables of `index_path_with_embedder_source`.
pub record IndexRun (E S T : Type 0) : Type 0 where
  pub hash_store : HashStore
  pub embedder : ResolvedEmbedder E
  pub store : S
  pub text_index : T
  pub stats : IndexStats
  pub pending : List PendingFile
  pub processed_files : List (Text × Text)

module _ {E S T : Type 0} where
  -- A call on one of the objects.
  abbrev pub on_hash_store : {A : Type 0} → Action HashStore A → Action (IndexRun E S T) A
  on_hash_store call run =
      let (result, hash_store) = call run.hash_store in
      (result, record run { hash_store = hash_store })

  abbrev pub on_embedder : {A : Type 0} → Action (ResolvedEmbedder E) A → Action (IndexRun E S T) A
  on_embedder call run =
      let (result, embedder) = call run.embedder in (result, record run { embedder = embedder })

  abbrev pub on_store : {A : Type 0} → Action S A → Action (IndexRun E S T) A
  on_store call run = let (result, store) = call run.store in (result, record run { store = store })

  abbrev pub on_text_index : {A : Type 0} → Action T A → Action (IndexRun E S T) A
  on_text_index call run =
      let (result, text_index) = call run.text_index in
      (result, record run { text_index = text_index })

  abbrev pub on_stats : (IndexStats → IndexStats) → Action (IndexRun E S T) Unit
  on_stats change run = (ok tt, record run { stats = change run.stats })
