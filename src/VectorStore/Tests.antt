-- ===== src/VectorStore/Tests.antt =====
-- A run of plan_reindex in src/vector_store/mod.rs, where a vector is the length of its text.
use vektor.Common.{
  All, Pairwise, none, ◌≢◌, ℕ, ◌+◌, Option, none, some, List, [], ◌∷◌, ◌++◌, map, length, ◌≡◌, refl,
  arith, if◌then◌else◌,
}
use vektor.Common.Text.{Text, codes, text_eq, member, replace_by, join}
use vektor.Common.Int.{pos}
use vektor.Common.Outcome.{Result, ok}
use vektor.Chunker.Types.{Chunk, Language, as_str}
use vektor.VectorStore.{
  ReindexPlan, ChunkRow, language_name, plan_reindex, miss_texts, fresh_vectors, assemble_rows,
  next_vector, chunk_row, is_miss, to_u32,
}
use vektor.VectorStore.Sql.{
  ids_predicate, quoted, escape_sql_string_literal, rel_paths_in_predicate,
}
use vektor.VectorStore.Sql.Reads.{read_in_predicate, read_in_predicate-rel_paths}
use vektor.VectorStore.Reindex.{
  fresh_meta, ChunksTable, VectorStore, cached, first_wins, no_misses, collect_miss, collect_misses,
  zip, embed_misses, plan_files, all_chunks, save_meta, mark_full_index_completed,
  existing_embeddings_for_files, delete_by_files, check_dims, insert_chunks, reindex_files,
}
use vektor.VectorStore.Reindex.Planned.{plan_files-right_rows, right_rows}
use vektor.Indexing.{FileToReindex}
use vektor.Common.Batches.{chunks, chunks_go}
use vektor.Common.Action.{pure, after, for_each, ◌>>=◌}
use vektor.VectorStore.Vectors.{right_row, plan_reindex-right_row}

rust_name : language_name (some Language.rust) ≡ codes "rust"
unfolding language_name as_str
rust_name = refl

abbrev piece : Text → Text → ℕ → Chunk
piece hash content line = record {
  id = hash;
  content = content;
  content_hash = hash;
  rel_path = codes "src/a.rs";
  start_line = line;
  end_line = line + 1;
  symbol_name = none;
  symbol_type = none;
  language = some Language.rust;
}

abbrev pieces : List Chunk
pieces = piece (codes "h") (codes "old") 1 ∷ piece (codes "k") (codes "fresh") 3 ∷ []

abbrev pieces_twice : List Chunk
pieces_twice = pieces ++ (piece (codes "k") (codes "fresh") 5 ∷ [])

abbrev stored : List (Text × ℕ)
stored = (codes "h", 7) ∷ []

abbrev content_of : Text → Text
content_of hash = if text_eq hash (codes "h") then codes "old" else codes "fresh"

abbrev held : Text → Option ℕ
held hash = if text_eq hash (codes "h") then some 7 else none

abbrev embed_all : List Text → Result (List ℕ)
embed_all texts = ok (map length texts)

plan_reindex-right_row_example :
    (plan : ReindexPlan) × (plan_reindex pieces held embed_all (pos 0)
      ≡ some (ok (map (right_row held length (pos 0)) pieces, plan)))
    × (plan.reused + plan.embedded ≡ 2)
    × (plan.embedded ≡ length (miss_texts held pieces))
plan_reindex-right_row_example =
    plan_reindex-right_row held length (pos 0) embed_all (λ texts. refl) pieces
      ((omega arith, omega arith), ((omega arith, omega arith), tt))

abbrev batch : List FileToReindex
batch = record { rel_path = codes "src/a.rs"; chunks = pieces_twice; last_modified = pos 9 } ∷ []

plan_files-right_rows_example :
    let misses = collect_misses (cached stored) (all_chunks batch) no_misses in
    (misses.miss_texts ≡ map content_of misses.queued)
    × All (λ h. cached stored h ≡ none) misses.queued
    × Pairwise (λ h k. h ≢ k) misses.queued
    × (fresh : List (Text × ℕ)) × (embed_misses embed_all misses ≡ ok fresh)
    × (plan_files (cached (stored ++ fresh)) embed_all batch
        ≡ some (ok (right_rows (cached stored) length batch)))
    × (misses.reused + misses.embedded ≡ length (all_chunks batch))
unfolding all_chunks text_eq
plan_files-right_rows_example =
    plan_files-right_rows content_of length embed_all (λ texts. refl) stored batch
      (refl, (refl, (refl, tt)))
      ((omega arith, omega arith), ((omega arith, omega arith), ((omega arith, omega arith), tt)))

-- The missing hash is embedded once, though two chunks have it.
embedded_once :
    (collect_misses (cached stored) pieces_twice no_misses).miss_texts ≡ codes "fresh" ∷ []
unfolding collect_misses collect_miss cached text_eq member
embedded_once = refl

read_in_predicate-rel_paths_example :
    read_in_predicate 2 (rel_paths_in_predicate (codes "a' OR '1'='1" ∷ codes "b" ∷ []))
    ≡ some (codes "a' OR '1'='1" ∷ codes "b" ∷ [])
read_in_predicate-rel_paths_example =
    read_in_predicate-rel_paths (codes "a' OR '1'='1") (codes "b" ∷ [])

one_id : ids_predicate (codes "x'y" ∷ []) ≡ codes "id = 'x''y'"
unfolding ids_predicate quoted escape_sql_string_literal replace_by join
one_id = refl

-- A table whose rows are their content hashes and vectors.
abbrev lance : ChunksTable ℕ (List (Text × ℕ))
lance = record {
  query_hashes = λ _ table. ok table;
  delete_rows = λ _ table. (ok (length table), []);
  add_rows =
      λ rows table. (ok tt, table ++ map (λ (r : ChunkRow ℕ). (r.content_hash, r.vector)) rows);
  save_meta = λ _. pure tt;
}

abbrev opened : VectorStore (List (Text × ℕ))
opened = record { meta = fresh_meta (codes "0.1") (codes "m") 1; table = stored }

reindexed_rows :
    (reindex_files (λ _. 1) lance embed_all batch opened).1.table
    ≡ (codes "h", 7) ∷ (codes "k", 5) ∷ (codes "k", 5) ∷ []
unfolding reindex_files existing_embeddings_for_files delete_by_files insert_chunks check_dims
    save_meta fresh_meta first_wins cached collect_misses collect_miss embed_misses plan_files
    all_chunks zip plan_reindex miss_texts fresh_vectors assemble_rows next_vector chunk_row is_miss
    to_u32 language_name as_str member text_eq ◌>>=◌ after for_each chunks chunks_go
reindexed_rows = refl

full_is_marked :
    (mark_full_index_completed (λ _. 1) lance (pos 3) opened).1.meta.last_full_index_at
    ≡ some (pos 3)
unfolding mark_full_index_completed save_meta ◌>>=◌ after
full_is_marked = refl
