-- ===== src/VectorStore/Vectors.antt =====
-- Which vector each row of a re-index plan gets (src/vector_store/mod.rs).
use vektor.Common.{
  ◌+◌, ◌-◌, ◌^◌, ◌≤◌, ◌<◌, Option, some, none, List, [], ◌∷◌, map, filter, length, length-map,
  length-filter-le, lt→ltb, ◌≡◌, refl, ap, arith, inl, inr, Option-cases, All,
}
use vektor.Common.Text.{Text}
use vektor.Common.Int.{ℤ}
use vektor.Common.Outcome.{Result, ok}
use vektor.Chunker.Types.{Chunk}
use vektor.VectorStore.{
  ChunkRow, ReindexPlan, to_u32, language_name, is_miss, chunk_row, next_vector, assemble_rows,
  miss_texts, fresh_vectors, plan_reindex,
}

-- The line numbers of a chunk fit in 32 bits.
abbrev pub FitsU32 : Chunk → Type 0
FitsU32 c = (c.start_line < 2 ^ 32) × (c.end_line < 2 ^ 32)

module _ {V : Type 0} (cache : Text → Option V) (embed : Text → V) (last_modified : ℤ) where
  -- The vector that a chunk should have: the cached one, or that of its own content.
  abbrev pub right_vector : Chunk → V
  right_vector c = elim (cache c.content_hash) [ some v ↦ v | none ↦ embed c.content ]

  abbrev pub right_row : Chunk → ChunkRow V
  right_row c = record {
    id = c.id;
    content_hash = c.content_hash;
    vector = right_vector c;
    rel_path = c.rel_path;
    start_line = c.start_line;
    end_line = c.end_line;
    symbol_name = c.symbol_name;
    symbol_type = c.symbol_type;
    language = language_name c.language;
    content = c.content;
    last_modified = last_modified;
  }

  length-miss_texts : (chunks : List Chunk) → length (miss_texts cache chunks) ≤ length chunks
  unfolding miss_texts
  length-miss_texts chunks = omega (
    arith,
    length-map (filter (is_miss cache) chunks) (λ (c : Chunk). c.content),
    length-filter-le (is_miss cache) chunks,
  )

  chunk_row-fits :
      (c : Chunk) (v : V)
      → FitsU32 c
      → chunk_row last_modified c v ≡ ok (record (right_row c) { vector = v })
  unfolding chunk_row to_u32
  chunk_row-fits c v h =
      rw (lt→ltb c.start_line (2 ^ 32) h.0) (rw (lt→ltb c.end_line (2 ^ 32) h.1) refl)

  -- One round of the second loop.
  rows_step :
      (c : Chunk) (cs : List Chunk) (fresh rest : List V) (v : V) (rows : List (ChunkRow V))
      → FitsU32 c
      → next_vector cache fresh c ≡ some (v, rest)
      → assemble_rows cache last_modified rest cs ≡ some (ok rows)
      → assemble_rows cache last_modified fresh (c ∷ cs)
        ≡ some (ok (record (right_row c) { vector = v } ∷ rows))
  unfolding assemble_rows
  rows_step c cs fresh rest v rows h next later =
      rw (assemble_rows, next) (rw (chunk_row-fits c v h) (rw later refl))

  miss_texts-miss :
      (c : Chunk) (cs : List Chunk)
      → cache c.content_hash ≡ none
      → miss_texts cache (c ∷ cs) ≡ c.content ∷ miss_texts cache cs
  unfolding miss_texts is_miss
  miss_texts-miss c cs e = ground arith

  miss_texts-hit :
      (c : Chunk) (cs : List Chunk) {v : V}
      → cache c.content_hash ≡ some v
      → miss_texts cache (c ∷ cs) ≡ miss_texts cache cs
  unfolding miss_texts is_miss
  miss_texts-hit c cs e = ground arith

  next_vector-miss :
      (c : Chunk) (v : V) (rest : List V)
      → cache c.content_hash ≡ none
      → next_vector cache (v ∷ rest) c ≡ some (v, rest)
  unfolding next_vector
  next_vector-miss c v rest e = ground arith

  next_vector-hit :
      (c : Chunk) (v : V) (fresh : List V)
      → cache c.content_hash ≡ some v
      → next_vector cache fresh c ≡ some (v, fresh)
  unfolding next_vector
  next_vector-hit c v fresh e = ground arith

  right_row-miss :
      (c : Chunk)
      → cache c.content_hash ≡ none
      → record (right_row c) { vector = embed c.content } ≡ right_row c
  right_row-miss c e =
      let same : embed c.content ≡ right_vector c = ground arith in
      ap (λ v. record (right_row c) { vector = v }) same

  right_row-hit :
      (c : Chunk) (v : V)
      → cache c.content_hash ≡ some v
      → record (right_row c) { vector = v } ≡ right_row c
  right_row-hit c v e =
      let same : v ≡ right_vector c = ground arith in
      ap (λ w. record (right_row c) { vector = w }) same

  rows-right :
      (chunks : List Chunk)
      → All FitsU32 chunks
      → assemble_rows cache last_modified (map embed (miss_texts cache chunks)) chunks
        ≡ some (ok (map right_row chunks))
  unfolding assemble_rows
  rows-right [] h = refl
  rows-right (c ∷ cs) h =
      let later = rows-right cs h.1 in
      elim (Option-cases (cache c.content_hash)) [
        | inl miss ↦
            rw (miss_texts-miss c cs miss, ← right_row-miss c miss)
              (rows_step c cs _ _ (embed c.content) (map right_row cs) h.0
                (next_vector-miss c (embed c.content) _ miss) later)
        | inr (v, hit) ↦
            rw (miss_texts-hit c cs hit, ← right_row-hit c v hit)
              (rows_step c cs _ _ v (map right_row cs) h.0 (next_vector-hit c v _ hit) later)
      ]

  module _ (embed_documents : List Text → Result (List V))
      (embeds : (texts : List Text) → embed_documents texts ≡ ok (map embed texts)) where
    fresh_vectors-right :
        (texts : List Text) → fresh_vectors embed_documents texts ≡ ok (map embed texts)
    unfolding fresh_vectors
    fresh_vectors-right [] = refl
    fresh_vectors-right (t ∷ texts) = embeds (t ∷ texts)

    -- Where the embedder answers with one vector for each text, in their order, and the line numbers
    -- fit in 32 bits, `plan_reindex` succeeds without a panic: it gives one row for each chunk, in
    -- order, with the cached vector of its content hash or else the vector of its own content, and
    -- the plan counts every chunk as reused or embedded.
    pub plan_reindex-right_row :
        (chunks : List Chunk)
        → All FitsU32 chunks
        → (plan : ReindexPlan) × (plan_reindex chunks cache embed_documents last_modified
            ≡ some (ok (map right_row chunks, plan)))
          × (plan.reused + plan.embedded ≡ length chunks)
          × (plan.embedded ≡ length (miss_texts cache chunks))
    unfolding plan_reindex miss_texts
    plan_reindex-right_row [] h = (_, refl, refl, refl)
    plan_reindex-right_row (c ∷ cs) h =
        let texts = miss_texts cache (c ∷ cs) in
        (
          record { reused = length (c ∷ cs) - length texts; embedded = length texts },
          rw (plan_reindex, fresh_vectors-right texts) (rw (rows-right (c ∷ cs) h) refl),
          omega (arith, length-miss_texts (c ∷ cs)),
          refl,
        )
