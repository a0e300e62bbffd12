-- ===== src/Context/Cache.antt =====
-- src/context/cache.rs: recent search results, by query, mode and project. The crate's `LruCache` is
-- the parameter `LruOps`, with its documented behaviour in `IsLru`; times are in nanoseconds.
pub mod Hits
pub mod Kept
mod Tests
use vektor.Common.{
  ℕ, ◌-◌, ◌*◌, max, Bool, true, false, Option, some, none, List, [], ◌∷◌, map, filter, ltb,
  if◌then◌else◌, ◌≡◌, ◌≢◌, ◌⊎◌, All, Any,
}
use vektor.Common.Text.{Text, codes, trim, member}
use vektor.Search.Types.{SearchMode, HybridResult}

abbrev pub default_cache_capacity : ℕ
default_cache_capacity = 100

abbrev pub default_ttl : ℕ
default_ttl = 60 * 1000000000

pub mode_key : SearchMode → Text
mode_key SearchMode.hybrid = codes "hybrid"
mode_key SearchMode.semantic = codes "semantic"
mode_key SearchMode.keyword = codes "keyword"

pub record CacheKey : Type 0 where
  pub query : Text
  pub mode : Text
  pub project_hash : Text

pub cache_key : Text → SearchMode → Text → CacheKey
unfolding trim mode_key
cache_key query mode project_hash = record {
  query = trim query;
  mode = mode_key mode;
  project_hash = project_hash;
}

pub record CacheEntry (F : Type 0) : Type 0 where
  pub payload : List (HybridResult F)
  pub files_included : List Text
  pub inserted_at : ℕ

-- The operations of `LruCache`; `peek` is its look-up that leaves the order of use alone.
pub record LruOps (V : Type 0) : Type 1 where
  pub Store : Type 0
  pub create : ℕ → Store
  pub peek : CacheKey → Store → Option V
  pub promote : CacheKey → Store → Store
  pub put : CacheKey → V → Store → Store
  pub pop : CacheKey → Store → Store
  pub iter : Store → List (CacheKey × V)
  pub clear : Store → Store

-- What the crate documents: a `get` reorders, a `put` adds an entry and may evict others, a `pop`
-- removes one, and `iter` visits the entries.
pub record IsLru {V : Type 0} (lru : LruOps V) : Type 0 where
  pub peek-promote : (j k : CacheKey) (s : lru.Store) → lru.peek j (lru.promote k s) ≡ lru.peek j s
  pub peek-put : (k : CacheKey) (v : V) (s : lru.Store) → lru.peek k (lru.put k v s) ≡ some v
  pub peek-put_other :
      (j k : CacheKey) (v : V) (s : lru.Store)
      → j ≢ k
      → (lru.peek j (lru.put k v s) ≡ lru.peek j s) ⊎ (lru.peek j (lru.put k v s) ≡ none)
  pub peek-pop : (k : CacheKey) (s : lru.Store) → lru.peek k (lru.pop k s) ≡ none
  pub peek-pop_other :
      (j k : CacheKey) (s : lru.Store) → j ≢ k → lru.peek j (lru.pop k s) ≡ lru.peek j s
  pub iter_sound :
      (s : lru.Store) → All (λ (e : CacheKey × V). lru.peek e.0 s ≡ some e.1) (lru.iter s)
  pub iter_complete :
      (k : CacheKey) (v : V) (s : lru.Store)
      → lru.peek k s ≡ some v
      → Any (λ (e : CacheKey × V). e ≡ (k, v)) (lru.iter s)
  pub peek-clear : (k : CacheKey) (s : lru.Store) → lru.peek k (lru.clear s) ≡ none

module _ {F : Type 0} (lru : LruOps (CacheEntry F)) where
  pub record QueryCache : Type 0 where
    pub entries : lru.Store
    pub ttl : ℕ

  pub with_capacity_and_ttl : ℕ → ℕ → QueryCache
  with_capacity_and_ttl capacity ttl = record { entries = lru.create (max capacity 1); ttl = ttl }

  abbrev pub new : QueryCache
  new = with_capacity_and_ttl default_cache_capacity default_ttl

  -- `elapsed` saturates at zero.
  pub is_expired : ℕ → ℕ → Option (CacheEntry F) → Bool
  is_expired ttl now none = false
  is_expired ttl now (some entry) = ltb ttl (now - entry.inserted_at)

  pub get : Text → SearchMode → Text → ℕ → QueryCache → Option (List (HybridResult F)) × QueryCache
  get query mode project_hash now cache =
      let key = cache_key query mode project_hash in
      let found = lru.peek key cache.entries in
      let promoted = lru.promote key cache.entries in
      if is_expired cache.ttl now found
      then (none, record cache { entries = lru.pop key promoted })
      else (
        elim (lru.peek key promoted) [ none ↦ none | some entry ↦ some entry.payload ],
        record cache { entries = lru.promote key promoted },
      )

  pub put_with_instant :
      Text → SearchMode → Text → List (HybridResult F) → List Text → ℕ → QueryCache → QueryCache
  put_with_instant query mode project_hash payload files_included inserted_at cache = record cache {
    entries =
        lru.put (cache_key query mode project_hash)
          (record { payload = payload; files_included = files_included; inserted_at = inserted_at })
          cache.entries;
  }

  -- `put` is `put_with_instant` with the clock's time.
  abbrev pub put :
      Text → SearchMode → Text → List (HybridResult F) → List Text → ℕ → QueryCache → QueryCache
  put = put_with_instant

  pub pop_all : List CacheKey → lru.Store → lru.Store
  pop_all [] entries = entries
  pop_all (key ∷ keys) entries = pop_all keys (lru.pop key entries)

  pub invalidate_file : Text → QueryCache → QueryCache
  unfolding member
  invalidate_file rel_path cache =
      let keys =
        map (λ (e : CacheKey × CacheEntry F). e.0)
          (filter (λ (e : CacheKey × CacheEntry F). member rel_path e.1.files_included)
            (lru.iter cache.entries)) in
      record cache { entries = pop_all keys cache.entries }

  pub clear : QueryCache → QueryCache
  clear cache = record cache { entries = lru.clear cache.entries }
