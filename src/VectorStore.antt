-- ===== src/VectorStore.antt =====
-- src/vector_store/mod.rs: the plan of a re-index, which embeds only what the store does not hold.
-- `V` stands for a vector; the cache of vectors by content hash is the function that looks one up.
pub mod Vectors
pub mod Sql
pub mod Reindex
mod Tests
use vektor.Common.{
  ℕ, suc, ◌+◌, ◌-◌, ◌^◌, Bool, true, false, not, Option, some, none, List, [], ◌∷◌, ◌++◌, map,
  filter, length, ltb, if◌then◌else◌,
}
use vektor.Common.Text.{Text, codes, decimal}
use vektor.Common.Int.{ℤ}
use vektor.Common.Outcome.{Result, ok, err, ◌>>=◌, VektorError}
use vektor.Chunker.Types.{Chunk, Language, as_str}

pub record ChunkRow (V : Type 0) : Type 0 where
  pub id : Text
  pub content_hash : Text
  pub vector : V
  pub rel_path : Text
  pub start_line : ℕ
  pub end_line : ℕ
  pub symbol_name : Option Text
  pub symbol_type : Option Text
  pub language : Text
  pub content : Text
  pub last_modified : ℤ

pub record ReindexPlan : Type 0 where
  pub reused : ℕ
  pub embedded : ℕ

-- `u32::try_from`, with the text of the error.
pub to_u32 : Text → Text → ℕ → Result ℕ
unfolding decimal
to_u32 field rel_path line =
    if ltb line (2 ^ 32)
    then ok line
    else err (
        VektorError.storage (
          codes "chunk "
          ++ field
          ++ codes " "
          ++ decimal line
          ++ codes " overflows u32 (rel_path="
          ++ rel_path
          ++ codes ")"))

pub language_name : Option Language → Text
language_name none = codes "unknown"
language_name (some l) = as_str l

module _ {V : Type 0} where
  -- A cache miss.
  pub is_miss : (Text → Option V) → Chunk → Bool
  is_miss cache chunk = elim (cache chunk.content_hash) [ none ↦ true | some _ ↦ false ]

  pub chunk_row : ℤ → Chunk → V → Result (ChunkRow V)
  chunk_row last_modified chunk vector =
      to_u32 (codes "start_line") chunk.rel_path chunk.start_line >>= λ start_line.
      to_u32 (codes "end_line") chunk.rel_path chunk.end_line >>= λ end_line. ok (record {
        id = chunk.id;
        content_hash = chunk.content_hash;
        vector = vector;
        rel_path = chunk.rel_path;
        start_line = start_line;
        end_line = end_line;
        symbol_name = chunk.symbol_name;
        symbol_type = chunk.symbol_type;
        language = language_name chunk.language;
        content = chunk.content;
        last_modified = last_modified;
      })

  -- The vector of a chunk and the fresh vectors that are left; `none` is the panic of `expect`.
  pub next_vector : (Text → Option V) → List V → Chunk → Option (V × List V)
  next_vector cache fresh chunk = elim (cache chunk.content_hash) [
    | some cached ↦ some (cached, fresh)
    | none ↦ elim fresh [ [] ↦ none | vector ∷ rest ↦ some (vector, rest) ]
  ]

  -- The second loop, which puts the rows together; `none` is a panic.
  pub assemble_rows :
      (Text → Option V) → ℤ → List V → List Chunk → Option (Result (List (ChunkRow V)))
  assemble_rows cache last_modified fresh [] = some (ok [])
  assemble_rows cache last_modified fresh (chunk ∷ chunks) = elim (next_vector cache fresh chunk) [
    | none ↦ none
    | some (vector, rest) ↦ elim (chunk_row last_modified chunk vector) [
      | err e ↦ some (err e)
      | ok row ↦ elim (assemble_rows cache last_modified rest chunks) [
        | none ↦ none
        | some rows ↦ some (rows >>= λ records. ok (row ∷ records))
      ]
    ]
  ]

  pub miss_texts : (Text → Option V) → List Chunk → List Text
  miss_texts cache chunks = map (λ (c : Chunk). c.content) (filter (is_miss cache) chunks)

  -- Documents are embedded in one call, and in none where nothing is missing.
  pub fresh_vectors : (List Text → Result (List V)) → List Text → Result (List V)
  fresh_vectors embed_documents [] = ok []
  fresh_vectors embed_documents (text ∷ texts) = embed_documents (text ∷ texts)

  pub plan_reindex :
      List Chunk
      → (Text → Option V)
      → (List Text → Result (List V))
      → ℤ
      → Option (Result (List (ChunkRow V) × ReindexPlan))
  plan_reindex [] cache embed_documents last_modified =
      some (ok ([], record { reused = 0; embedded = 0 }))
  plan_reindex (chunk ∷ chunks) cache embed_documents last_modified =
      let all_chunks : List Chunk = chunk ∷ chunks in
      let texts = miss_texts cache all_chunks in
      let plan : ReindexPlan = record {
        reused = length all_chunks - length texts;
        embedded = length texts;
      } in
      elim (fresh_vectors embed_documents texts) [
        | err e ↦ some (err e)
        | ok fresh ↦ elim (assemble_rows cache last_modified fresh all_chunks) [
          | none ↦ none
          | some rows ↦ some (rows >>= λ records. ok (records, plan))
        ]
      ]
