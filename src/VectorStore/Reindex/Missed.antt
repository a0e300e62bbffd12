-- ===== src/VectorStore/Reindex/Missed.antt =====
-- What the loop of src/vector_store/mod.rs over a batch of chunks collects.
use vektor.Common.{
  suc, ◌+◌, true, Option, some, none, List, [], ◌∷◌, ◌++◌, map, length, ◌≡◌, ◌≢◌, Pairwise,
  All-append, false, sym, arith, inl, inr, ◌⊎◌, All, Bool-cases, Option-cases, map-append,
}
use vektor.Common.Text.{Text, eq→text_eq, text_eq_refl, member}
use vektor.Chunker.Types.{Chunk}
use vektor.VectorStore.Reindex.{Misses, collect_miss, collect_misses}

member-append_right :
    (s : Text) (ts us : List Text) → member s us ≡ true → member s (ts ++ us) ≡ true
unfolding member
member-append_right s [] us h = h
member-append_right s (t ∷ ts) us h = ground (arith, member-append_right s ts us h)

member-append_left :
    (s : Text) (ts us : List Text) → member s ts ≡ true → member s (ts ++ us) ≡ true
unfolding member
member-append_left s [] us h = cc
member-append_left s (t ∷ ts) us h = ground (arith, member-append_left s ts us)

member_self : (s : Text) → member s (s ∷ []) ≡ true
unfolding member
member_self s = ground (arith, text_eq_refl s)

not_member : (s : Text) (ts : List Text) → member s ts ≡ false → All (λ t. t ≢ s) ts
unfolding member
not_member s [] h = tt
not_member s (t ∷ ts) h =
    ((λ e. ground (arith, eq→text_eq s t (sym e))), not_member s ts (ground arith))

Pairwise-append_new :
    (ts : List Text) (s : Text)
    → Pairwise (λ h k. h ≢ k) ts
    → All (λ t. t ≢ s) ts
    → Pairwise (λ h k. h ≢ k) (ts ++ (s ∷ []))
Pairwise-append_new [] s p h = (tt, tt)
Pairwise-append_new (t ∷ ts) s p h =
    (All-append (λ k. t ≢ k) ts (s ∷ []) p.0 (h.0, tt), Pairwise-append_new ts s p.1 h.1)

-- A content hash stands for one content.
abbrev pub IsHashed : (Text → Text) → Chunk → Type 0
IsHashed content_of c = content_of c.content_hash ≡ c.content

module _ {V : Type 0} (cache : Text → Option V) (content_of : Text → Text) where
  abbrev pub InStep : Misses → Type 0
  InStep m = m.miss_texts ≡ map content_of m.queued

  collect_miss-InStep :
      (c : Chunk) (m : Misses) → IsHashed content_of c → InStep m → InStep (collect_miss cache c m)
  unfolding collect_miss
  collect_miss-InStep c m h k = elim (Option-cases (cache c.content_hash)) [
    | inr (v, hit) ↦ rw (collect_miss, hit) k
    | inl miss ↦ elim (Bool-cases (member c.content_hash m.queued)) [
      | inl e ↦ rw (collect_miss, miss, e) k
      | inr e ↦
          rw (collect_miss, miss, e)
            (rw (k, ← h) (sym (map-append content_of m.queued (c.content_hash ∷ []))))
    ]
  ]

  -- What a round keeps and adds.
  collect_miss-member :
      (c : Chunk) (m : Misses) (s : Text)
      → member s m.queued ≡ true
      → member s (collect_miss cache c m).queued ≡ true
  unfolding collect_miss
  collect_miss-member c m s h =
      ground (arith, member-append_left s m.queued (c.content_hash ∷ []) h)

  collect_miss-queues :
      (c : Chunk) (m : Misses)
      → cache c.content_hash ≡ none
      → member c.content_hash (collect_miss cache c m).queued ≡ true
  unfolding collect_miss
  collect_miss-queues c m miss = ground (
    arith,
    member-append_right c.content_hash m.queued (c.content_hash ∷ []) (member_self c.content_hash),
  )

  collect_miss-count :
      (c : Chunk) (m : Misses)
      → (collect_miss cache c m).reused + (collect_miss cache c m).embedded
        ≡ suc (m.reused + m.embedded)
  unfolding collect_miss
  collect_miss-count c m = ground arith

  pub collect_misses-InStep :
      (cs : List Chunk) (m : Misses)
      → All (IsHashed content_of) cs
      → InStep m
      → InStep (collect_misses cache cs m)
  unfolding collect_misses
  collect_misses-InStep [] m h k = k
  collect_misses-InStep (c ∷ cs) m h k =
      collect_misses-InStep cs (collect_miss cache c m) h.1 (collect_miss-InStep c m h.0 k)

  collect_misses-member :
      (cs : List Chunk) (m : Misses) (s : Text)
      → member s m.queued ≡ true
      → member s (collect_misses cache cs m).queued ≡ true
  unfolding collect_misses
  collect_misses-member [] m s h = h
  collect_misses-member (c ∷ cs) m s h =
      collect_misses-member cs (collect_miss cache c m) s (collect_miss-member c m s h)

  pub collect_misses-count :
      (cs : List Chunk) (m : Misses)
      → (collect_misses cache cs m).reused + (collect_misses cache cs m).embedded
        ≡ m.reused + m.embedded + length cs
  unfolding collect_misses
  collect_misses-count [] m = omega arith
  collect_misses-count (c ∷ cs) m =
      omega (arith, collect_misses-count cs (collect_miss cache c m), collect_miss-count c m)

  -- The queue: every hash in it is missing, and none is in it twice.
  abbrev pub IsQueue : List Text → Type 0
  IsQueue queued = All (λ h. cache h ≡ none) queued × Pairwise (λ h k. h ≢ k) queued

  collect_miss-IsQueue :
      (c : Chunk) (m : Misses) → IsQueue m.queued → IsQueue (collect_miss cache c m).queued
  unfolding collect_miss
  collect_miss-IsQueue c m (missing, distinct) = elim (Option-cases (cache c.content_hash)) [
    | inr (v, hit) ↦ rw (collect_miss, hit) (missing, distinct)
    | inl miss ↦ elim (Bool-cases (member c.content_hash m.queued)) [
      | inl e ↦ rw (collect_miss, miss, e) (missing, distinct)
      | inr e ↦
          rw (collect_miss, miss, e)
            (
              All-append (λ h. cache h ≡ none) m.queued (c.content_hash ∷ []) missing (miss, tt),
              Pairwise-append_new m.queued c.content_hash distinct
                  (not_member c.content_hash m.queued e),
            )
    ]
  ]

  pub collect_misses-IsQueue :
      (cs : List Chunk) (m : Misses) → IsQueue m.queued → IsQueue (collect_misses cache cs m).queued
  unfolding collect_misses
  collect_misses-IsQueue [] m h = h
  collect_misses-IsQueue (c ∷ cs) m h =
      collect_misses-IsQueue cs (collect_miss cache c m) (collect_miss-IsQueue c m h)

  -- A chunk is in the cache, or its hash has been queued.
  abbrev pub Served : List Text → Chunk → Type 0
  Served queued c =
      ((v : V) × (cache c.content_hash ≡ some v))
      ⊎ ((cache c.content_hash ≡ none) × (member c.content_hash queued ≡ true))

  pub collect_misses-Served :
      (cs : List Chunk) (m : Misses) → All (Served (collect_misses cache cs m).queued) cs
  unfolding collect_misses
  collect_misses-Served [] m = tt
  collect_misses-Served (c ∷ cs) m =
      let next = collect_miss cache c m in
      (
        elim (Option-cases (cache c.content_hash)) [
          | inr hit ↦ inl hit
          | inl miss ↦
              inr
                (miss, collect_misses-member cs next c.content_hash (collect_miss-queues c m miss))
        ],
        collect_misses-Served cs next,
      )
