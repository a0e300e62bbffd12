-- ===== src/Context/Cache/Kept.antt =====
-- How long src/context/cache.rs keeps a payload.
use vektor.Common.{
  ℕ, ◌-◌, ◌+◌, ◌≤◌, false, some, none, List, [], ◌∷◌, ◌≡◌, ◌≢◌, refl, subst, ◌∙◌, sym, ap, arith,
  inl, inr, ◌⊎◌, All,
}
use vektor.Common.Text.{Text, trim, text_eq, eq→text_eq}
use vektor.Search.Types.{SearchMode, HybridResult}
use vektor.Context.Cache.{
  CacheKey, CacheEntry, mode_key, LruOps, IsLru, QueryCache, cache_key, is_expired, get,
  put_with_instant,
}
use vektor.Context.Cache.Hits.{get-Fresh}

-- A later put, and what makes it one of another query.
pub record Put (F : Type 0) : Type 0 where
  pub query : Text
  pub mode : SearchMode
  pub project : Text
  pub payload : List (HybridResult F)
  pub files : List Text
  pub at : ℕ

abbrev pub IsOther : {F : Type 0} → Text → SearchMode → Text → Put F → Type 0
IsOther query mode project p =
    (trim p.query ≢ trim query) ⊎ ((p.mode ≢ mode) ⊎ (p.project ≢ project))

module _ {F : Type 0} (lru : LruOps (CacheEntry F)) where
  abbrev pub put_all : List (Put F) → QueryCache lru → QueryCache lru
  put_all [] cache = cache
  put_all (p ∷ later) cache =
      put_all later (put_with_instant lru p.query p.mode p.project p.payload p.files p.at cache)

  -- The store has the entry, or has evicted it.
  abbrev Holds : CacheKey → CacheEntry F → QueryCache lru → Type 0
  Holds key entry cache =
      (lru.peek key cache.entries ≡ some entry) ⊎ (lru.peek key cache.entries ≡ none)

distinct : {A : Type 0} {s t : Text} → s ≡ t → text_eq s t ≡ false → A
distinct {s = s} {t = t} e n = absurd (ground (arith, eq→text_eq s t e))

module _ {F : Type 0} (lru : LruOps (CacheEntry F)) (law : IsLru lru) where
  mode_key_injective : (m n : SearchMode) → mode_key m ≡ mode_key n → m ≡ n
  unfolding mode_key text_eq
  mode_key_injective SearchMode.hybrid SearchMode.hybrid e = refl
  mode_key_injective SearchMode.semantic SearchMode.semantic e = refl
  mode_key_injective SearchMode.keyword SearchMode.keyword e = refl
  mode_key_injective SearchMode.hybrid SearchMode.semantic e = distinct e refl
  mode_key_injective SearchMode.hybrid SearchMode.keyword e = distinct e refl
  mode_key_injective SearchMode.semantic SearchMode.hybrid e = distinct e refl
  mode_key_injective SearchMode.semantic SearchMode.keyword e = distinct e refl
  mode_key_injective SearchMode.keyword SearchMode.hybrid e = distinct e refl
  mode_key_injective SearchMode.keyword SearchMode.semantic e = distinct e refl

  IsOther-key :
      (query : Text) (mode : SearchMode) (project : Text) (p : Put F)
      → IsOther query mode project p
      → cache_key query mode project ≢ cache_key p.query p.mode p.project
  unfolding cache_key
  IsOther-key query mode project p (inl n) e = n (sym (ap (λ (k : CacheKey). k.query) e))
  IsOther-key query mode project p (inr (inl n)) e =
      n (sym (mode_key_injective mode p.mode (ap (λ (k : CacheKey). k.mode) e)))
  IsOther-key query mode project p (inr (inr n)) e =
      n (sym (ap (λ (k : CacheKey). k.project_hash) e))

  ttl_kept :
      (p : Put F) (cache : QueryCache lru)
      → (put_with_instant lru p.query p.mode p.project p.payload p.files p.at cache).ttl ≡ cache.ttl
  unfolding put_with_instant
  ttl_kept p cache = refl

  put_other-Holds :
      (key : CacheKey) (p : Put F) (cache : QueryCache lru) (entry : CacheEntry F)
      → key ≢ cache_key p.query p.mode p.project
      → Holds lru key entry cache
      → Holds lru key entry
          (put_with_instant lru p.query p.mode p.project p.payload p.files p.at cache)
  unfolding put_with_instant
  put_other-Holds key p cache entry n h =
      elim (law.peek-put_other key (cache_key p.query p.mode p.project) _ cache.entries n) [
        | inr evicted ↦ inr evicted
        | inl kept ↦ elim h [ inl e ↦ inl (kept ∙ e) | inr e ↦ inr (kept ∙ e) ]
      ]

  same_text :
      (asked query : Text) (mode : SearchMode) (project : Text)
      → trim asked ≡ trim query
      → cache_key query mode project ≡ cache_key asked mode project
  unfolding cache_key
  same_text asked query mode project same =
      λ i. record { query = sym same i; mode = mode_key mode; project_hash = project }

  held_answer :
      (query : Text) (mode : SearchMode) (project : Text) (now : ℕ) (cache : QueryCache lru)
      (entry : CacheEntry F)
      → now - entry.inserted_at ≤ cache.ttl
      → Holds lru (cache_key query mode project) entry cache
      → ((get lru query mode project now cache).0 ≡ some entry.payload)
        ⊎ ((get lru query mode project now cache).0 ≡ none)
  unfolding get is_expired
  held_answer query mode project now cache entry young (inl e) =
      elim (get-Fresh lru law query mode project now cache entry e) [
        | inl (_, answer) ↦ inl answer
        | inr (old, _, _) ↦ absurd (omega (arith, old, young))
      ]
  held_answer query mode project now cache entry young (inr e) = inr (
      rw
        (
          law.peek-promote (cache_key query mode project) (cache_key query mode project)
              cache.entries,
          e,
        )
        refl)

  put_all-Holds :
      (query : Text) (mode : SearchMode) (project : Text) (entry : CacheEntry F)
      (later : List (Put F)) (cache : QueryCache lru)
      → All (IsOther query mode project) later
      → Holds lru (cache_key query mode project) entry cache
      → Holds lru (cache_key query mode project) entry (put_all lru later cache)
        × ((put_all lru later cache).ttl ≡ cache.ttl)
  put_all-Holds query mode project entry [] cache others h = (h, refl)
  put_all-Holds query mode project entry (p ∷ later) cache others h =
      let key = cache_key query mode project in
      let n = IsOther-key query mode project p others.0 in
      let next = put_with_instant lru p.query p.mode p.project p.payload p.files p.at cache in
      let (held, same) =
        put_all-Holds query mode project entry later next others.1
          (put_other-Holds key p cache entry n h) in
      (held, same ∙ ttl_kept p cache)

  -- A payload is answered for as long as its time to live, to every query with the same text but for
  -- blanks around it, in the same mode and project. After puts under other queries, modes or
  -- projects, the answer is that payload, or none, where the store has evicted it.
  pub get-put :
      (query asked : Text) (mode : SearchMode) (project : Text) (payload : List (HybridResult F))
      (files : List Text) (at age : ℕ) (later : List (Put F)) (cache : QueryCache lru)
      → trim asked ≡ trim query
      → All (IsOther query mode project) later
      → age ≤ cache.ttl
      → let stored = put_with_instant lru query mode project payload files at cache in
        ((get lru asked mode project (at + age) stored).0 ≡ some payload)
        × (((get lru asked mode project (at + age) (put_all lru later stored)).0 ≡ some payload)
            ⊎ ((get lru asked mode project (at + age) (put_all lru later stored)).0 ≡ none))
  unfolding put_with_instant
  get-put query asked mode project payload files at age later cache same others h =
      let key = cache_key query mode project in
      let key' = cache_key asked mode project in
      let entry : CacheEntry F = record {
        payload = payload;
        files_included = files;
        inserted_at = at;
      } in
      let stored = put_with_instant lru query mode project payload files at cache in
      let found : lru.peek key stored.entries ≡ some entry = law.peek-put key entry cache.entries in
      let keys : key ≡ key' = same_text asked query mode project same in
      let (held, ttl) = put_all-Holds query mode project entry later stored others (inl found) in
      let young : at + age - at ≤ cache.ttl = omega (arith, h) in
      (
        elim (get-Fresh lru law asked mode project (at + age) stored entry
            (subst (λ k. lru.peek k stored.entries ≡ some entry) keys found)) [
              | inl (_, answer) ↦ answer
              | inr (old, _, _) ↦ absurd (omega (arith, old, young))
            ],
        held_answer asked mode project (at + age) (put_all lru later stored) entry (rw ttl young)
            (subst (λ k. Holds lru k entry (put_all lru later stored)) keys held),
      )
