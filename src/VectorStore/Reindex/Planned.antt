-- ===== src/VectorStore/Reindex/Planned.antt =====
-- Which rows src/vector_store/mod.rs plans for a batch of files, and what it counts.
use vektor.Common.{
  ℕ, ◌+◌, ◌==◌, ==_iff, true, Option, some, none, List, [], ◌∷◌, ◌++◌, map, length, ◌≡◌, refl, ap,
  ◌≢◌, Pairwise, sym, ◌∙◌, subst, arith, inl, inr, All, All-append_left, All-append_right,
  Bool-cases, length-map,
}
use vektor.Common.Text.{Text, text_eq, text_eq→eq, member}
use vektor.Common.Int.{ℤ, pos}
use vektor.Common.Outcome.{Result, ok}
use vektor.Chunker.Types.{Chunk}
use vektor.Indexing.{FileToReindex}
use vektor.VectorStore.{ChunkRow}
use vektor.VectorStore.Vectors.{FitsU32, right_vector, right_row, plan_reindex-right_row}
use vektor.VectorStore.Reindex.{
  cached, Misses, no_misses, collect_misses, zip, embed_misses, plan_files, all_chunks,
}
use vektor.VectorStore.Reindex.Missed.{
  IsHashed, Served, collect_misses-InStep, collect_misses-IsQueue, collect_misses-count,
  collect_misses-Served,
}

All-zip :
    {A : Type 0} (P Q R : A → Type 0)
    → ((x : A) → P x → Q x → R x)
    → (xs : List A) → All P xs
    → All Q xs
    → All R xs
All-zip P Q R f [] h k = tt
All-zip P Q R f (x ∷ xs) h k = (f x h.0 k.0, All-zip P Q R f xs h.1 k.1)

module _ {V : Type 0} (cache : Text → Option V) (embed : Text → V) (c : Chunk) where
  right_vector-hit :
      (v : V) → cache c.content_hash ≡ some v → right_vector cache embed (pos 0) c ≡ v
  right_vector-hit v e = rw (right_vector, e) refl

  right_vector-miss :
      cache c.content_hash ≡ none → right_vector cache embed (pos 0) c ≡ embed c.content
  right_vector-miss e = rw (right_vector, e) refl

module _ {V : Type 0} (entries : List (Text × V)) (content_of : Text → Text)
    (embed : Text → V) where
  abbrev hashed_vector : Text → V
  hashed_vector h = embed (content_of h)

  -- A look-up in the cache that the fresh vectors complete.
  cached-zip_miss :
      (queued : List Text) (s : Text)
      → member s queued ≡ true
      → cached (zip queued (map hashed_vector queued)) s ≡ some (hashed_vector s)
  unfolding cached zip member
  cached-zip_miss [] s h = cc
  cached-zip_miss (q ∷ queued) s h = elim (Bool-cases (text_eq s q)) [
    | inl e ↦ rw e (ap (λ t. some (hashed_vector t)) (sym (text_eq→eq s q e)))
    | inr e ↦ rw e (cached-zip_miss queued s (ground arith))
  ]

  cached-append_hit :
      (es fs : List (Text × V)) (s : Text) (v : V)
      → cached es s ≡ some v
      → cached (es ++ fs) s ≡ some v
  unfolding cached
  cached-append_hit [] fs s v h = cc
  cached-append_hit (e ∷ es) fs s v h = ground (arith, cached-append_hit es fs s v)

  cached-append_miss :
      (es fs : List (Text × V)) (s : Text) → cached es s ≡ none → cached (es ++ fs) s ≡ cached fs s
  unfolding cached
  cached-append_miss [] fs s h = refl
  cached-append_miss (e ∷ es) fs s h = ground (arith, cached-append_miss es fs s)

  -- The cache after the misses have been embedded.
  abbrev complete : List Text → Text → Option V
  complete queued = cached (entries ++ zip queued (map hashed_vector queued))

  right_vector-complete :
      (queued : List Text) (c : Chunk)
      → IsHashed content_of c
      → Served (cached entries) content_of queued c
      → right_vector (complete queued) embed (pos 0) c
        ≡ right_vector (cached entries) embed (pos 0) c
  right_vector-complete queued c h (inl (v, hit)) =
      let found : complete queued c.content_hash ≡ some v =
        cached-append_hit entries _ c.content_hash v hit in
      right_vector-hit (complete queued) embed c v found
      ∙ sym (right_vector-hit (cached entries) embed c v hit)
  right_vector-complete queued c h (inr (miss, queues)) =
      let found : complete queued c.content_hash ≡ some (hashed_vector c.content_hash) =
        cached-append_miss entries _ c.content_hash miss
        ∙ cached-zip_miss queued c.content_hash queues in
      right_vector-hit (complete queued) embed c (hashed_vector c.content_hash) found
      ∙ (ap embed h ∙ sym (right_vector-miss (cached entries) embed c miss))

-- The rows that a batch should have.
abbrev pub right_rows :
    {V : Type 0} → (Text → Option V) → (Text → V) → List FileToReindex → List (ChunkRow V)
right_rows cache embed [] = []
right_rows cache embed (f ∷ files) =
    map (right_row cache embed f.last_modified) f.chunks ++ right_rows cache embed files

module _ {V : Type 0} (content_of : Text → Text) (embed : Text → V)
    (embed_documents : List Text → Result (List V))
    (embeds : (texts : List Text) → embed_documents texts ≡ ok (map embed texts)) where
  plan_files-right :
      (cache : Text → Option V) (files : List FileToReindex)
      → All FitsU32 (all_chunks files)
      → plan_files cache embed_documents files ≡ some (ok (right_rows cache embed files))
  unfolding plan_files all_chunks
  plan_files-right cache [] h = refl
  plan_files-right cache (f ∷ files) h =
      let (plan, planned, _, _) =
        plan_reindex-right_row cache embed f.last_modified embed_documents embeds f.chunks
          (All-append_left FitsU32 f.chunks (all_chunks files) h) in
      let later =
        plan_files-right cache files (All-append_right FitsU32 f.chunks (all_chunks files) h) in
      rw (plan_files, planned, later) refl

  -- The same vectors give the same rows.
  abbrev SameVector : (Text → Option V) → (Text → Option V) → Chunk → Type 0
  SameVector cache cache' c =
      right_vector cache embed (pos 0) c ≡ right_vector cache' embed (pos 0) c

  rows-same :
      (cache cache' : Text → Option V) (time : ℤ) (cs : List Chunk)
      → All (SameVector cache cache') cs
      → map (right_row cache embed time) cs ≡ map (right_row cache' embed time) cs
  rows-same cache cache' time [] h = refl
  rows-same cache cache' time (c ∷ cs) h =
      let first : right_row cache embed time c ≡ right_row cache' embed time c =
        ap (λ v. record (right_row cache embed time c) { vector = v }) h.0 in
      ap (λ r. r ∷ map (right_row cache embed time) cs) first
      ∙ ap (λ l. right_row cache' embed time c ∷ l) (rows-same cache cache' time cs h.1)

  right_rows-same :
      (cache cache' : Text → Option V) (files : List FileToReindex)
      → All (SameVector cache cache') (all_chunks files)
      → right_rows cache embed files ≡ right_rows cache' embed files
  unfolding all_chunks
  right_rows-same cache cache' [] h = refl
  right_rows-same cache cache' (f ∷ files) h =
      let same =
        rows-same cache cache' f.last_modified f.chunks
          (All-append_left (SameVector cache cache') f.chunks (all_chunks files) h) in
      let later =
        right_rows-same cache cache' files
          (All-append_right (SameVector cache cache') f.chunks (all_chunks files) h) in
      rw (same, later) refl

  map-map : (hs : List Text) → map embed (map content_of hs) ≡ map (λ h. embed (content_of h)) hs
  map-map [] = refl
  map-map (h ∷ hs) = ap (λ l. embed (content_of h) ∷ l) (map-map hs)

  embed_misses-queued :
      (reused embedded : ℕ) (queued : List Text)
      → embed_misses embed_documents (record {
        reused = reused;
        embedded = embedded;
        queued = queued;
        miss_texts = map content_of queued;
      })
        ≡ ok (zip queued (map (λ h. embed (content_of h)) queued))
  unfolding embed_misses zip
  embed_misses-queued reused embedded [] = refl
  embed_misses-queued reused embedded (q ∷ queued) =
      let texts = map content_of (q ∷ queued) in
      let counted : (length (map embed texts) == length texts) ≡ true =
        (==_iff (length (map embed texts)) (length texts)).1 (length-map texts embed) in
      rw (embeds texts, counted)
        (ap (λ vs. ok ((q, embed (content_of q)) ∷ zip queued vs)) (map-map queued))

  -- The fresh vectors, one for each queued hash.
  embed_misses-right :
      (m : Misses)
      → m.miss_texts ≡ map content_of m.queued
      → embed_misses embed_documents m
        ≡ ok (zip m.queued (map (λ h. embed (content_of h)) m.queued))
  embed_misses-right m e =
      subst
        (λ (n : Misses).
          embed_misses embed_documents n
          ≡ ok (zip m.queued (map (λ h. embed (content_of h)) m.queued)))
        (ap (λ ts. record m { miss_texts = ts }) (sym e))
        (embed_misses-queued m.reused m.embedded m.queued)

  -- Where the embedder answers with one vector for each text, in their order, a content hash stands
  -- for one content, and the line numbers fit in 32 bits, the planning of a batch of files ends
  -- without an error or a panic. The texts that it sends to the embedder are the contents of content
  -- hashes that the store does not have, no hash twice; it gives each chunk of each file, in order, a row with the vector
  -- that the store had for its content hash, or else with the vector of its content; and it counts
  -- each chunk as reused or embedded.
  pub plan_files-right_rows :
      (entries : List (Text × V)) (files : List FileToReindex)
      → All (IsHashed content_of) (all_chunks files)
      → All FitsU32 (all_chunks files)
      → let misses = collect_misses (cached entries) (all_chunks files) no_misses in
        (misses.miss_texts ≡ map content_of misses.queued)
        × All (λ h. cached entries h ≡ none) misses.queued
        × Pairwise (λ h k. h ≢ k) misses.queued
        × (fresh : List (Text × V)) × (embed_misses embed_documents misses ≡ ok fresh)
        × (plan_files (cached (entries ++ fresh)) embed_documents files
            ≡ some (ok (right_rows (cached entries) embed files)))
        × (misses.reused + misses.embedded ≡ length (all_chunks files))
  plan_files-right_rows entries files hashed fits =
      let cs = all_chunks files in
      let misses = collect_misses (cached entries) cs no_misses in
      let in_step = collect_misses-InStep (cached entries) content_of cs no_misses hashed refl in
      let fresh = zip misses.queued (map (λ h. embed (content_of h)) misses.queued) in
      let served = collect_misses-Served (cached entries) content_of cs no_misses in
      let same : All (SameVector (cached (entries ++ fresh)) (cached entries)) cs =
        All-zip (IsHashed content_of) (Served (cached entries) content_of misses.queued)
          (SameVector (cached (entries ++ fresh)) (cached entries))
          (right_vector-complete entries content_of embed misses.queued) cs hashed served in
      let queue = collect_misses-IsQueue (cached entries) content_of cs no_misses (tt, tt) in
      (
        in_step,
        queue.0,
        queue.1,
        fresh,
        embed_misses-right misses in_step,
        plan_files-right (cached (entries ++ fresh)) files fits
            ∙ ap (λ rows. some (ok rows))
                (right_rows-same (cached (entries ++ fresh)) (cached entries) files same),
        collect_misses-count (cached entries) content_of cs no_misses ∙ omega arith,
      )
