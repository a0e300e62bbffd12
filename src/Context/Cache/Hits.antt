-- ===== src/Context/Cache/Hits.antt =====
-- What a look-up in src/context/cache.rs can answer.
use vektor.Common.{
  ℕ, ◌-◌, ◌≤◌, ◌<◌, Bool, true, false, Option, some, none, List, [], ◌∷◌, map, filter, ltb,
  if◌then◌else◌, ◌≡◌, ◌≢◌, refl, ◌∙◌, sym, ap, arith, inl, inr, ◌⊎◌, Bool-cases, Option-cases, All,
  Any,
}
use vektor.Common.Text.{Text, text_eq, text_eq→eq, eq→text_eq, member}
use vektor.Search.Types.{SearchMode}
use vektor.Context.Cache.{
  CacheKey, CacheEntry, LruOps, IsLru, QueryCache, cache_key, is_expired, get, pop_all,
  invalidate_file,
}

-- An entry, unless it includes the file.
abbrev pub unless_included : {F : Type 0} → Text → Option (CacheEntry F) → Option (CacheEntry F)
unless_included rel_path none = none
unless_included rel_path (some entry) =
    if member rel_path entry.files_included then none else some entry

module _ {F : Type 0} (lru : LruOps (CacheEntry F)) (law : IsLru lru) where
  -- What a look-up answers is the payload of an entry that is stored and not expired; an entry that
  -- has expired is not answered, and it is gone afterwards.
  pub get-Fresh :
      (query : Text) (mode : SearchMode) (project : Text) (now : ℕ) (cache : QueryCache lru)
      (entry : CacheEntry F)
      → lru.peek (cache_key query mode project) cache.entries ≡ some entry
      → ((now - entry.inserted_at ≤ cache.ttl)
          × ((get lru query mode project now cache).0 ≡ some entry.payload))
        ⊎ ((cache.ttl < now - entry.inserted_at)
            × ((get lru query mode project now cache).0 ≡ none)
            × (lru.peek
                  (cache_key query mode project)
                  (get lru query mode project now cache).1.entries
                ≡ none))
  unfolding get is_expired
  get-Fresh query mode project now cache entry e =
      let key = cache_key query mode project in
      elim (Bool-cases (ltb cache.ttl (now - entry.inserted_at))) [
        | inl old ↦ inr (
          ground arith,
          rw (e, old) refl,
          rw (e, old) (law.peek-pop key (lru.promote key cache.entries)),
        )
        | inr young ↦ inl (ground arith, rw (law.peek-promote key key cache.entries, e, young) refl)
      ]

  key_cases : (j k : CacheKey) → (j ≡ k) ⊎ (j ≢ k)
  key_cases j k = elim (Bool-cases (text_eq j.query k.query)) [
    | inr e ↦
        inr (λ h. ground (arith, eq→text_eq j.query k.query (ap (λ (x : CacheKey). x.query) h)))
    | inl e ↦ elim (Bool-cases (text_eq j.mode k.mode)) [
      | inr g ↦
          inr (λ h. ground (arith, eq→text_eq j.mode k.mode (ap (λ (x : CacheKey). x.mode) h)))
      | inl g ↦ elim (Bool-cases (text_eq j.project_hash k.project_hash)) [
        | inr m ↦ inr (λ h. ground (
          arith,
          eq→text_eq j.project_hash k.project_hash (ap (λ (x : CacheKey). x.project_hash) h),
        ))
        | inl m ↦ inl (same_fields j k (text_eq→eq _ _ e) (text_eq→eq _ _ g) (text_eq→eq _ _ m))
      ]
    ]
  ]
    where
      same_fields :
          (j k : CacheKey)
          → j.query ≡ k.query
          → j.mode ≡ k.mode
          → j.project_hash ≡ k.project_hash
          → j ≡ k
      same_fields j k a b c = λ i. record { query = a i; mode = b i; project_hash = c i }

  pop_all-none :
      (k : CacheKey) (keys : List CacheKey) (s : lru.Store)
      → lru.peek k s ≡ none
      → lru.peek k (pop_all lru keys s) ≡ none
  unfolding pop_all
  pop_all-none k [] s h = h
  pop_all-none k (j ∷ keys) s h = pop_all-none k keys (lru.pop j s) (elim (key_cases k j) [
    | inl e ↦ rw e (law.peek-pop j s)
    | inr n ↦ law.peek-pop_other k j s n ∙ h
  ])

  pop_all-gone :
      (k : CacheKey) (keys : List CacheKey) (s : lru.Store)
      → Any (λ j. j ≡ k) keys
      → lru.peek k (pop_all lru keys s) ≡ none
  unfolding pop_all
  pop_all-gone k [] s h = elim h [ ]
  pop_all-gone k (j ∷ keys) s (inl e) =
      pop_all-none k keys (lru.pop j s) (rw (sym e) (law.peek-pop j s))
  pop_all-gone k (j ∷ keys) s (inr h) = pop_all-gone k keys (lru.pop j s) h

  pop_all-keep :
      (k : CacheKey) (keys : List CacheKey) (s : lru.Store)
      → All (λ j. k ≢ j) keys
      → lru.peek k (pop_all lru keys s) ≡ lru.peek k s
  unfolding pop_all
  pop_all-keep k [] s h = refl
  pop_all-keep k (j ∷ keys) s h =
      pop_all-keep k keys (lru.pop j s) h.1 ∙ law.peek-pop_other k j s h.0

  abbrev Item : Type 0
  Item = CacheKey × CacheEntry F

  abbrev includes : Text → Item → Bool
  includes rel_path e = member rel_path e.1.files_included

  listed_gone :
      (rel_path : Text) (k : CacheKey) (entry : CacheEntry F) (items : List Item)
      → member rel_path entry.files_included ≡ true
      → Any (λ (e : Item). e ≡ (k, entry)) items
      → Any (λ j. j ≡ k) (map (λ (e : Item). e.0) (filter (includes rel_path) items))
  listed_gone rel_path k entry [] m h = elim h [ ]
  listed_gone rel_path k entry (e ∷ items) m (inl same) =
      let here : includes rel_path e ≡ true = rw same m in
      rw here (inl (ap (λ (x : Item). x.0) same))
  listed_gone rel_path k entry (e ∷ items) m (inr h) =
      let rest = listed_gone rel_path k entry items m h in
      elim (Bool-cases (includes rel_path e)) [
        | inl here ↦ rw here (inr rest)
        | inr out ↦ rw out rest
      ]

  unlisted_keep :
      (rel_path : Text) (k : CacheKey) (s : lru.Store) (items : List Item)
      → ((entry : CacheEntry F)
          → lru.peek k s ≡ some entry
          → member rel_path entry.files_included ≡ false)
      → All (λ (e : Item). lru.peek e.0 s ≡ some e.1) items
      → All (λ j. k ≢ j) (map (λ (e : Item). e.0) (filter (includes rel_path) items))
  unlisted_keep rel_path k s [] m h = tt
  unlisted_keep rel_path k s (e ∷ items) m h =
      let rest = unlisted_keep rel_path k s items m h.1 in
      elim (Bool-cases (includes rel_path e)) [
        | inr out ↦ rw out rest
        | inl here ↦ rw here (
          (λ same. absurd (clash (m e.1 (ap (λ (x : CacheKey). lru.peek x s) same ∙ h.0)) here)),
          rest,
        )
      ]
    where
      clash : {b : Bool} → b ≡ false → b ≡ true → ⊥
      clash h k = cc

  -- `invalidate_file` removes every entry whose files include the path, and only those.
  pub invalidate_file-Exact :
      (rel_path : Text) (k : CacheKey) (cache : QueryCache lru)
      → lru.peek k (invalidate_file lru rel_path cache).entries
        ≡ unless_included rel_path (lru.peek k cache.entries)
  unfolding invalidate_file
  invalidate_file-Exact rel_path k cache =
      let s = cache.entries in
      let items = lru.iter s in
      let keys = map (λ (e : Item). e.0) (filter (includes rel_path) items) in
      elim (Option-cases (lru.peek k s)) [
        | inl absent ↦ rw absent (pop_all-none k keys s absent)
        | inr (entry, e) ↦ elim (Bool-cases (member rel_path entry.files_included)) [
          | inl inside ↦
              rw (e, inside)
                (pop_all-gone k keys s
                  (listed_gone rel_path k entry items inside (law.iter_complete k entry s e)))
          | inr outside ↦
              rw (e, outside)
                (pop_all-keep k keys s
                    (unlisted_keep rel_path k s items (λ other p. ground arith) (law.iter_sound s))
                  ∙ e)
        ]
      ]
