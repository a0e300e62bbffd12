-- ===== src/VectorStore/Reindex.antt =====
-- src/vector_store/mod.rs: re-indexing a batch of files. `V` stands for a vector and `L` for the
-- LanceDB table; the embedder answers a list of documents.
pub mod Missed
pub mod Planned
use vektor.Common.{
  ℕ, zero, suc, ◌+◌, ◌-◌, ◌^◌, ◌==◌, Bool, true, false, not, Option, some, none, List, [], ◌∷◌,
  ◌++◌, map, length, if◌then◌else◌, min,
}
use vektor.Common.Text.{Text, codes, text_eq, decimal, member}
use vektor.Common.Int.{ℤ}
use vektor.Common.Words.{saturating_add}
use vektor.Common.Batches.{chunks}
use vektor.Common.Outcome.{Result, ok, err, VektorError}
use vektor.Common.Action.{Action, pure, lift, gets, modify, ◌>>=◌, ◌>>◌, for_each}
use vektor.Chunker.Types.{Chunk}
use vektor.Indexing.{FileToReindex, ReindexStats}
use vektor.VectorStore.{ChunkRow, ReindexPlan, plan_reindex}
use vektor.VectorStore.Sql.{rel_paths_in_predicate}

abbrev pub insert_batch : ℕ
insert_batch = 500

pub record StoreMeta : Type 0 where
  pub model_name : Text
  pub embedding_dim : ℕ
  pub last_full_index_at : Option ℤ
  pub vektor_version : Text
  pub chunks_at_last_ann_rebuild : ℕ
  pub chunks_inserted_since : ℕ
  pub chunks_deleted_since : ℕ

-- `StoreMeta::fresh`
unfoldable pub fresh_meta : Text → Text → ℕ → StoreMeta
fresh_meta version model_name dim = record {
  model_name = model_name;
  embedding_dim = dim;
  last_full_index_at = none;
  vektor_version = version;
  chunks_at_last_ann_rebuild = 0;
  chunks_inserted_since = 0;
  chunks_deleted_since = 0;
}

-- The table and the metadata file: rows are read, deleted and added by calls that may fail.
pub record ChunksTable (V L : Type 0) : Type 0 where
  pub query_hashes : Text → L → Result (List (Text × V))
  pub delete_rows : Text → Action L ℕ
  pub add_rows : List (ChunkRow V) → Action L Unit
  pub save_meta : StoreMeta → Action L Unit

pub record VectorStore (L : Type 0) : Type 0 where
  pub meta : StoreMeta
  pub table : L

module _ {V : Type 0} where
  -- A `HashMap` from content hashes, as the list of its entries.
  unfoldable pub cached : List (Text × V) → Text → Option V
  cached [] hash = none
  cached (entry ∷ cache) hash = if text_eq hash entry.0 then some entry.1 else cached cache hash

  -- `hash_vector_map_from_batches`: the first vector of a hash is kept.
  unfoldable pub first_wins : List (Text × V) → List (Text × V) → List (Text × V)
  first_wins out [] = out
  first_wins out (row ∷ rows) = elim (cached out row.0) [
    | some _ ↦ first_wins out rows
    | none ↦ first_wins (out ++ (row ∷ [])) rows
  ]

-- What the loop over the chunks has collected.
pub record Misses : Type 0 where
  pub reused : ℕ
  pub embedded : ℕ
  pub queued : List Text
  pub miss_texts : List Text

abbrev pub no_misses : Misses
no_misses = record { reused = 0; embedded = 0; queued = []; miss_texts = [] }

module _ {V : Type 0} where
  -- `queued` is the set of the hashes in `miss_hashes`, which has them in the order of insertion.
  unfoldable pub collect_miss : (Text → Option V) → Chunk → Misses → Misses
  collect_miss cache chunk misses = elim (cache chunk.content_hash) [
    | some _ ↦ record misses { reused = suc misses.reused }
    | none ↦
        if member chunk.content_hash misses.queued
        then record misses { embedded = suc misses.embedded }
        else record {
          reused = misses.reused;
          embedded = suc misses.embedded;
          queued = misses.queued ++ (chunk.content_hash ∷ []);
          miss_texts = misses.miss_texts ++ (chunk.content ∷ []);
        }
  ]

  unfoldable pub collect_misses : (Text → Option V) → List Chunk → Misses → Misses
  collect_misses cache [] misses = misses
  collect_misses cache (chunk ∷ chunks) misses =
      collect_misses cache chunks (collect_miss cache chunk misses)

  -- `zip`, as far as both lists go.
  unfoldable pub zip : List Text → List V → List (Text × V)
  zip [] vectors = []
  zip (hash ∷ hashes) [] = []
  zip (hash ∷ hashes) (v ∷ vectors) = (hash, v) ∷ zip hashes vectors

  -- The vectors of the misses; there is no call where nothing is missing.
  unfoldable pub embed_misses : (List Text → Result (List V)) → Misses → Result (List (Text × V))
  embed_misses embed_documents misses = elim misses.miss_texts [
    | [] ↦ ok []
    | first ∷ rest ↦ elim (embed_documents misses.miss_texts) [
      | err e ↦ err e
      | ok vectors ↦
          if length vectors == length misses.miss_texts
          then ok (zip misses.queued vectors)
          else err (
              VektorError.storage (
                codes "embedder returned "
                ++ decimal (length vectors)
                ++ codes " vectors for "
                ++ decimal (length misses.miss_texts)
                ++ codes " texts"))
    ]
  ]

  -- The rows of all files; `none` is a panic.
  unfoldable pub plan_files :
      (Text → Option V)
      → (List Text → Result (List V))
      → List FileToReindex
      → Option (Result (List (ChunkRow V)))
  plan_files cache embed_documents [] = some (ok [])
  plan_files cache embed_documents (file ∷ files) =
      elim (plan_reindex file.chunks cache embed_documents file.last_modified) [
        | none ↦ none
        | some (err e) ↦ some (err e)
        | some (ok planned) ↦ elim (plan_files cache embed_documents files) [
          | none ↦ none
          | some (err e) ↦ some (err e)
          | some (ok rows) ↦ some (ok (planned.0 ++ rows))
        ]
      ]

unfoldable pub all_chunks : List FileToReindex → List Chunk
all_chunks [] = []
all_chunks (file ∷ files) = file.chunks ++ all_chunks files

module _ {V L : Type 0} (dims : V → ℕ) (lance : ChunksTable V L) where
  -- A call on the table, and one that saves the metadata.
  abbrev on_table : {A : Type 0} → Action L A → Action (VectorStore L) A
  on_table call store =
      let (result, table) = call store.table in (result, record store { table = table })

  unfoldable pub save_meta : (StoreMeta → StoreMeta) → Action (VectorStore L) Unit
  save_meta change = do
    modify λ (store : VectorStore L). record store { meta = change store.meta }
    meta ← gets λ (store : VectorStore L). store.meta
    on_table (lance.save_meta meta)

  unfoldable pub mark_full_index_completed : ℤ → Action (VectorStore L) Unit
  mark_full_index_completed timestamp_secs =
      save_meta (λ meta. record meta { last_full_index_at = some timestamp_secs })

  unfoldable pub existing_embeddings_for_files :
      List Text → Action (VectorStore L) (List (Text × V))
  existing_embeddings_for_files [] = pure []
  existing_embeddings_for_files (path ∷ paths) = do
    rows ←
        on_table λ table. (lance.query_hashes (rel_paths_in_predicate (path ∷ paths)) table, table)
    pure (first_wins [] rows)

  unfoldable pub delete_by_files : List Text → Action (VectorStore L) ℕ
  delete_by_files [] = pure 0
  delete_by_files (path ∷ paths) = do
    deleted ← on_table (lance.delete_rows (rel_paths_in_predicate (path ∷ paths)))
    if deleted == 0
        then pure tt
        else save_meta (λ meta. record meta {
          chunks_deleted_since = saturating_add meta.chunks_deleted_since deleted;
        })
    pure deleted

  unfoldable pub check_dims : ℕ → List (ChunkRow V) → Result (Unit {0})
  check_dims dim [] = ok tt
  check_dims dim (row ∷ rows) =
      let checked = check_dims dim rows in
      if dims row.vector == dim
      then checked
      else err (
          VektorError.storage (
            codes "chunk "
            ++ row.id
            ++ codes " vector has "
            ++ decimal (dims row.vector)
            ++ codes " dims, store expects "
            ++ decimal dim))

  unfoldable pub insert_chunks : List (ChunkRow V) → Action (VectorStore L) Unit
  insert_chunks [] = pure tt
  insert_chunks (row ∷ rows) = do
    meta ← gets λ (store : VectorStore L). store.meta
    lift (check_dims meta.embedding_dim (row ∷ rows))
    on_table (lance.add_rows (row ∷ rows))
    save_meta (λ meta. record meta {
      chunks_inserted_since = saturating_add meta.chunks_inserted_since (length (row ∷ rows));
    })

  -- A panic of the planner is an error without a text.
  abbrev planned : Option (Result (List (ChunkRow V))) → Result (List (ChunkRow V))
  planned none = err (VektorError.storage [])
  planned (some rows) = rows

  unfoldable pub reindex_files :
      (List Text → Result (List V)) → List FileToReindex → Action (VectorStore L) ReindexStats
  reindex_files embed_documents [] = pure (record { chunks = 0; embedded = 0; reused = 0 })
  reindex_files embed_documents (file ∷ files) = do
    let batch = file ∷ files
    let rel_paths = map (λ (f : FileToReindex). f.rel_path) batch
    cache ← existing_embeddings_for_files rel_paths
    delete_by_files rel_paths
    let misses = collect_misses (cached cache) (all_chunks batch) no_misses
    fresh ← lift (embed_misses embed_documents misses)
    rows ← lift (planned (plan_files (cached (cache ++ fresh)) embed_documents batch))
    for_each insert_chunks (chunks insert_batch rows)
    pure (record { chunks = length rows; embedded = misses.embedded; reused = misses.reused })
