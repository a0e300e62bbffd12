-- ===== src/Context/Expander/Limits.antt =====
-- How many files src/context/expander.rs adds to a package, and how it marks their chunks.
use vektor.Common.{
  ℕ, ◌≤◌, true, false, ◌&&◌, not, some, List, [], ◌∷◌, ◌++◌, ◌≡◌, refl, sym, arith, inl, inr,
  Bool-cases, All, All-imp, All-append, length, length-append, take, leb,
}
use vektor.Common.Text.{Text, text_eq_refl, member, insert_text}
use vektor.Common.Float.{FloatOps}
use vektor.Common.Outcome.{ok, >>=-eq-ok, OnOk, OnOk-of}
use vektor.Search.Types.{HybridResult, SearchResult}
use vektor.Context.Types.{ContextChunk, ChunkSource}
use vektor.Context.Expander.{
  max_expanded_files, max_chunks_per_file, RelatedChunkStore, ExpansionCandidate, Expansion,
  semantic_similarity, context_chunk_from_search_result, take_hits, expand_candidates, expand,
  path_filter,
}

member-append_left :
    (s : Text) (ts us : List Text) → member s ts ≡ true → member s (ts ++ us) ≡ true
unfolding member
member-append_left s [] us h = cc
member-append_left s (t ∷ ts) us h = ground (arith, member-append_left s ts us)

member-append_last : (s : Text) (ts : List Text) → member s (ts ++ (s ∷ [])) ≡ true
unfolding member
member-append_last s [] = ground (arith, text_eq_refl s)
member-append_last s (t ∷ ts) = ground (arith, member-append_last s ts)

member-insert : (s : Text) (ts : List Text) → member s (insert_text s ts) ≡ true
unfolding insert_text
member-insert s ts = ground (arith, member-append_last s ts)

member-insert_old :
    (s t : Text) (ts : List Text) → member s ts ≡ true → member s (insert_text t ts) ≡ true
unfolding insert_text
member-insert_old s t ts h = ground (arith, member-append_left s ts (t ∷ []))

length-insert :
    (n : ℕ) (s : Text) (ts : List Text)
    → length ts ≤ n
    → (not (member s ts) && leb n (length ts)) ≡ false
    → length (insert_text s ts) ≤ n
unfolding insert_text
length-insert n s ts h k = ground (arith, length-append ts (s ∷ []))

module _ {F : Type 0} where
  -- A chunk of one of these files, marked as related context.
  abbrev pub IsRelatedTo : List Text → ContextChunk F → Type 0
  IsRelatedTo files c =
      (member c.rel_path files ≡ true) × (c.is_expanded ≡ true) × (c.source ≡ ChunkSource.related)

  abbrev pub FromFewFiles : List (ContextChunk F) → Type 0
  FromFewFiles chunks =
      (files : List Text) × (length files ≤ max_expanded_files) × All (IsRelatedTo files) chunks

  abbrev IsBounded : Expansion F → Type 0
  IsBounded st =
      (length st.expanded_files ≤ max_expanded_files)
      × All (IsRelatedTo st.expanded_files) st.expanded

  module _ ⦃f : FloatOps F⦄ where
    take_hits-IsBounded :
        (m : F) (hits : List (SearchResult F)) (st : Expansion F)
        → IsBounded st
        → IsBounded (take_hits m hits st)
    unfolding take_hits context_chunk_from_search_result
    take_hits-IsBounded m [] st b = b
    take_hits-IsBounded m (hit ∷ hits) st b =
        let similarity = semantic_similarity hit.score in
        let files = st.expanded_files in
        elim (Bool-cases (f.le similarity (f.literal 3 10))) [
          | inl low ↦ rw (take_hits, low) (take_hits-IsBounded m hits st b)
          | inr passes ↦
              elim (Bool-cases
                (not (member hit.rel_path files) && leb max_expanded_files (length files))) [
                  | inl stop ↦ rw (take_hits, passes, stop) b
                  | inr go ↦
                      rw (take_hits, passes, go)
                        (take_hits-IsBounded m hits _ (
                          length-insert max_expanded_files hit.rel_path files b.0 go,
                          All-append (IsRelatedTo (insert_text hit.rel_path files)) st.expanded _
                              (All-imp (IsRelatedTo files)
                                (IsRelatedTo (insert_text hit.rel_path files))
                                (λ c h.
                                  (member-insert_old c.rel_path hit.rel_path files h.0, h.1, h.2))
                                st.expanded b.1)
                              (related_chunk hit similarity files, tt),
                        ))
                ]
        ]
      where
        related_chunk :
            (hit : SearchResult F) (similarity : F) (files : List Text)
            → IsRelatedTo
                (insert_text hit.rel_path files)
                (context_chunk_from_search_result hit (f.mul similarity m) m)
        related_chunk hit similarity files = (member-insert hit.rel_path files, refl, refl)

    -- The two branches of a round of the outer loop.
    stopped :
        (v : List F) (store : RelatedChunkStore F) (c : ExpansionCandidate F)
        (cs : List (ExpansionCandidate F)) (st out : Expansion F)
        → leb max_expanded_files (length st.expanded_files) ≡ true
        → expand_candidates v store (c ∷ cs) st ≡ ok out
        → st ≡ out
    unfolding expand_candidates
    stopped v store c cs st out full e = ground arith

    searched :
        (v : List F) (store : RelatedChunkStore F) (c : ExpansionCandidate F)
        (cs : List (ExpansionCandidate F)) (st out : Expansion F)
        → leb max_expanded_files (length st.expanded_files) ≡ false
        → expand_candidates v store (c ∷ cs) st ≡ ok out
        → (hits : List (SearchResult F)) × (store.search_related_chunks v max_chunks_per_file
              (some (path_filter c.rel_path))
            ≡ ok hits)
          × (expand_candidates v store cs
                (take_hits c.multiplier (take max_chunks_per_file hits) st)
              ≡ ok out)
    unfolding expand_candidates
    searched v store c cs st out more e =
        let run = rw (expand_candidates, more) at e in >>=-eq-ok _ _ run

    expand_candidates-IsBounded :
        (query_vec : List F) (store : RelatedChunkStore F) (cs : List (ExpansionCandidate F))
        (st out : Expansion F)
        → IsBounded st
        → expand_candidates query_vec store cs st ≡ ok out
        → IsBounded out
    unfolding expand_candidates
    expand_candidates-IsBounded v store [] st out b e = let same : st ≡ out = cc in rw (sym same) b
    expand_candidates-IsBounded v store (c ∷ cs) st out b e =
        elim (Bool-cases (leb max_expanded_files (length st.expanded_files))) [
          | inl full ↦ let same : st ≡ out = stopped v store c cs st out full e in rw (sym same) b
          | inr more ↦
              let (hits, found, rest) = searched v store c cs st out more e in
              expand_candidates-IsBounded v store cs _ out
                (take_hits-IsBounded c.multiplier (take max_chunks_per_file hits) st b) rest
        ]

    expand-bounded :
        (results : List (HybridResult F)) (query_vec : List F) (store : RelatedChunkStore F)
        (chunks : List (ContextChunk F))
        → expand results query_vec store ≡ ok chunks
        → FromFewFiles chunks
    unfolding expand
    expand-bounded [] v store chunks e =
        let same : [] ≡ chunks = cc in ([], omega arith, rw (sym same) tt)
    expand-bounded (r ∷ rs) v store chunks e =
        let (st, run, done) = >>=-eq-ok _ _ e in
        let bounded = expand_candidates-IsBounded v store _ _ st (omega arith, tt) run in
        let same : st.expanded ≡ chunks = cc in
        (st.expanded_files, bounded.0, rw (sym same) bounded.1)

    -- Whatever the store answers, related context comes from at most five files, and each of its
    -- chunks is marked as related and as expanded.
    pub expand-FromFewFiles :
        (results : List (HybridResult F)) (query_vec : List F) (store : RelatedChunkStore F)
        → OnOk FromFewFiles (expand results query_vec store)
    expand-FromFewFiles results v store =
        OnOk-of FromFewFiles (expand results v store) (expand-bounded results v store)
