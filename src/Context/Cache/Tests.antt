-- ===== src/Context/Cache/Tests.antt =====
-- Runs of src/context/cache.rs on a store of capacity one.
use vektor.Common.{
  ℕ, ◌+◌, ◌-◌, ◌≤◌, ◌<◌, Bool, true, false, ◌&&◌, Option, some, none, List, [], ◌∷◌, ◌≡◌, ◌≢◌, ◌⊎◌,
  inl, inr, refl, sym, arith, Bool-cases, if◌then◌else◌, ◌∙◌, All, Any,
}
use vektor.Common.Text.{
  codes, text_eq, text_eq→eq, text_eq_refl, trim, trim_both, trim_start, is_whitespace,
}
use vektor.Samples.{found}
use vektor.Search.Types.{SearchMode, HybridResult}
use vektor.Context.Cache.{
  CacheKey, CacheEntry, LruOps, IsLru, QueryCache, cache_key, mode_key, get, put_with_instant,
  with_capacity_and_ttl, clear, invalidate_file,
}
use vektor.Context.Cache.Hits.{get-Fresh, invalidate_file-Exact, unless_included}
use vektor.Context.Cache.Kept.{Put, put_all, get-put}

abbrev Entry : Type 0
Entry = CacheEntry ℕ

abbrev same_key : CacheKey → CacheKey → Bool
same_key j k =
    text_eq j.query k.query && (text_eq j.mode k.mode && text_eq j.project_hash k.project_hash)

same_key→eq : (j k : CacheKey) → same_key j k ≡ true → j ≡ k
same_key→eq j k h =
    let a : j.query ≡ k.query = text_eq→eq j.query k.query (ground arith) in
    let b : j.mode ≡ k.mode = text_eq→eq j.mode k.mode (ground arith) in
    let c : j.project_hash ≡ k.project_hash =
      text_eq→eq j.project_hash k.project_hash (ground arith) in
    λ i. record { query = a i; mode = b i; project_hash = c i }

same_key_refl : (k : CacheKey) → same_key k k ≡ true
same_key_refl k = rw (text_eq_refl k.query, text_eq_refl k.mode, text_eq_refl k.project_hash) refl

abbrev Slot : Type 0
Slot = Option (CacheKey × Entry)

abbrev peek_slot : CacheKey → Slot → Option Entry
peek_slot k none = none
peek_slot k (some (j, v)) = if same_key j k then some v else none

abbrev pop_slot : CacheKey → Slot → Slot
pop_slot k none = none
pop_slot k (some (j, v)) = if same_key j k then none else some (j, v)

abbrev iter_slot : Slot → List (CacheKey × Entry)
iter_slot none = []
iter_slot (some e) = e ∷ []

abbrev slot : LruOps Entry
slot = record {
  Store = Slot;
  create = λ n. none;
  peek = peek_slot;
  promote = λ k s. s;
  put = λ k v s. some (k, v);
  pop = pop_slot;
  iter = iter_slot;
  clear = λ s. none;
}

other_key : (j k : CacheKey) → j ≢ k → same_key j k ≡ false
other_key j k n = elim (Bool-cases (same_key j k)) [
  | inl e ↦ absurd (n (same_key→eq j k e))
  | inr e ↦ e
]

peek-pop_slot : (k : CacheKey) (s : Slot) → peek_slot k (pop_slot k s) ≡ none
peek-pop_slot k none = refl
peek-pop_slot k (some (j, v)) = elim (Bool-cases (same_key j k)) [
  | inl e ↦ rw e refl
  | inr e ↦ rw e (rw e refl)
]

slot-IsLru : IsLru slot
slot-IsLru = record {
  peek-promote = λ j k s. refl;
  peek-put = λ k v s. rw (same_key_refl k) refl;
  peek-put_other = λ j k v s n. inr (rw (other_key k j (λ e. n (sym e))) refl);
  peek-pop = peek-pop_slot;
  peek-pop_other = pop_other;
  iter_sound = sound;
  iter_complete = complete;
  peek-clear = λ k s. refl;
}
  where
    pop_other : (j k : CacheKey) (s : Slot) → j ≢ k → peek_slot j (pop_slot k s) ≡ peek_slot j s
    pop_other j k none n = refl
    pop_other j k (some (i, v)) n = elim (Bool-cases (same_key i k)) [
      | inl e ↦
          let out : same_key i j ≡ false = other_key i j (λ p. n (sym p ∙ same_key→eq i k e)) in
          rw (e, out) refl
      | inr e ↦ rw e refl
    ]

    sound : (s : Slot) → All (λ (e : CacheKey × Entry). peek_slot e.0 s ≡ some e.1) (iter_slot s)
    sound none = tt
    sound (some (k, v)) = (rw (same_key_refl k) refl, tt)

    complete :
        (k : CacheKey) (v : Entry) (s : Slot)
        → peek_slot k s ≡ some v
        → Any (λ (e : CacheKey × Entry). e ≡ (k, v)) (iter_slot s)
    complete k v none h = cc
    complete k v (some (j, w)) h = elim (Bool-cases (same_key j k)) [
      | inl e ↦
          let a : j ≡ k = same_key→eq j k e in let b : w ≡ v = ground arith in inl (λ i. (a i, b i))
      | inr e ↦ absurd (ground arith)
    ]

abbrev hits : List (HybridResult ℕ)
hits = found (codes "a") (codes "src/a.rs") 1 9 500 ∷ []

abbrev cached : QueryCache slot
cached = record {
  entries = some (
    record { query = codes "auth"; mode = codes "hybrid"; project_hash = codes "p" },
    record { payload = hits; files_included = codes "src/a.rs" ∷ []; inserted_at = 5 },
  );
  ttl = 60;
}

-- The padding of a query does not matter; a cleared cache answers nothing.
padded :
    cache_key (codes " auth ") SearchMode.hybrid (codes "p")
    ≡ record { query = codes "auth"; mode = codes "hybrid"; project_hash = codes "p" }
unfolding cache_key mode_key trim trim_both trim_start is_whitespace
padded = refl

cleared : (clear slot cached).entries ≡ (with_capacity_and_ttl slot 0 60).entries
unfolding clear with_capacity_and_ttl
cleared = refl

abbrev later : List (Put ℕ)
later =
    record {
      query = codes "auth";
      mode = SearchMode.hybrid;
      project = codes "p";
      payload = [];
      files = [];
      at = 120;
    }
    ∷ []

other_mode : SearchMode.hybrid ≢ SearchMode.keyword
other_mode e = cc

get-put_example :
    let stored =
      put_with_instant slot (codes "auth") SearchMode.keyword (codes "p") hits [] 100 cached in
    let answer =
      (get slot
        (codes " auth ")
        SearchMode.keyword
        (codes "p")
        (100 + 60)
        (put_all slot later stored)).0 in
    ((get slot (codes " auth ") SearchMode.keyword (codes "p") (100 + 60) stored).0 ≡ some hits)
    × ((answer ≡ some hits) ⊎ (answer ≡ none))
unfolding trim trim_both trim_start is_whitespace
get-put_example =
    get-put slot slot-IsLru (codes "auth") (codes " auth ") SearchMode.keyword (codes "p") hits []
      100 60 later cached refl (inr (inl other_mode), tt) (omega arith)

get-Fresh_example :
    ((66 - 5 ≤ 60)
      × ((get slot (codes "auth") SearchMode.hybrid (codes "p") 66 cached).0 ≡ some hits))
    ⊎ ((60 < 66 - 5)
        × ((get slot (codes "auth") SearchMode.hybrid (codes "p") 66 cached).0 ≡ none)
        × (slot.peek
              (cache_key (codes "auth") SearchMode.hybrid (codes "p"))
              (get slot (codes "auth") SearchMode.hybrid (codes "p") 66 cached).1.entries
            ≡ none))
unfolding cache_key mode_key trim trim_both trim_start is_whitespace text_eq
get-Fresh_example =
    get-Fresh slot slot-IsLru (codes "auth") SearchMode.hybrid (codes "p") 66 cached
      (record { payload = hits; files_included = codes "src/a.rs" ∷ []; inserted_at = 5 }) refl

invalidate_file-Exact_example :
    slot.peek
      (cache_key (codes "auth") SearchMode.hybrid (codes "p"))
      (invalidate_file slot (codes "src/a.rs") cached).entries
    ≡ unless_included
        (codes "src/a.rs")
        (slot.peek (cache_key (codes "auth") SearchMode.hybrid (codes "p")) cached.entries)
invalidate_file-Exact_example =
    invalidate_file-Exact slot slot-IsLru (codes "src/a.rs")
      (cache_key (codes "auth") SearchMode.hybrid (codes "p")) cached
