-- ===== src/Context/Assembler/Results.antt =====
-- Which search results src/context/assembler.rs lets into a package.
use vektor.Common.{
  Bool, true, false, ◌&&◌, not, Option, some, none, List, [], ◌∷◌, ◌++◌, ◌≡◌, refl, ap, ◌∙◌, ◌↔◌,
  inl, inr, ◌⊎◌, Bool-cases, Option-cases, All, Any, All-imp, arith, if◌then◌else◌,
}
use vektor.Common.Text.{Text, codes, text_eq, text_eq→eq, text_eq_refl, strip_prefix, starts_with}
use vektor.Common.Float.{FloatOps}
use vektor.Search.Types.{HybridResult}
use vektor.Context.Types.{AssemblyConfig}
use vektor.Context.Dedup.{deduplicate}
use vektor.Context.Dedup.Origin.{Widens, deduplicate-FromInput}
use vektor.Context.Assembler.{
  is_doc_path, path_in_scope, path_allowed, max_hybrid_score, normalized_score, select_direct,
  direct_results,
}

strip_prefix→append : (s p rest : Text) → strip_prefix s p ≡ some rest → s ≡ p ++ rest
unfolding strip_prefix
strip_prefix→append s [] rest h = ground arith
strip_prefix→append [] (p ∷ ps) rest h = cc
strip_prefix→append (c ∷ s) (p ∷ ps) rest h = ground (arith, strip_prefix→append s ps rest)

strip_prefix-append : (p rest : Text) → strip_prefix (p ++ rest) p ≡ some rest
unfolding strip_prefix
strip_prefix-append [] rest = refl
strip_prefix-append (c ∷ p) rest = ground (arith, strip_prefix-append p rest)

starts_with→cons : (s : Text) → starts_with s (codes "/") ≡ true → (t : Text) × (s ≡ b'/' ∷ t)
unfolding starts_with
starts_with→cons [] h = cc
starts_with→cons (c ∷ s) h = (s, ground arith)

-- The path is the scope itself, or lies below it.
abbrev pub IsWithin : Text → Text → Type 0
IsWithin rel_path scope = (rel_path ≡ scope) ⊎ ((rest : Text) × (rel_path ≡ scope ++ (b'/' ∷ rest)))

path_in_scope_sound : (p s : Text) → path_in_scope p s ≡ true → IsWithin p s
unfolding path_in_scope
path_in_scope_sound p s h = elim (Bool-cases (text_eq p s)) [
  | inl same ↦ inl (text_eq→eq p s same)
  | inr other ↦ elim (Option-cases (strip_prefix p s)) [
    | inl out ↦ absurd (ground arith)
    | inr (rest, found) ↦
        let (t, slash) = starts_with→cons rest (ground arith) in
        inr (t, strip_prefix→append p s rest found ∙ ap (λ (x : Text). s ++ x) slash)
  ]
]

path_in_scope_complete : (p s : Text) → IsWithin p s → path_in_scope p s ≡ true
unfolding path_in_scope starts_with
path_in_scope_complete p s (inl e) = rw e (rw (text_eq_refl s) refl)
path_in_scope_complete p s (inr (rest, e)) = elim (Bool-cases (text_eq (s ++ (b'/' ∷ rest)) s)) [
  | inl same ↦ rw e (rw same refl)
  | inr other ↦ rw e (rw other (rw (strip_prefix-append s (b'/' ∷ rest)) refl))
]

-- A path passes `path_in_scope` exactly when it is the scope or begins with the scope and a `/`:
-- `src2/a.rs` is not within `src`.
pub path_in_scope_iff : (p s : Text) → (path_in_scope p s ≡ true) ↔ IsWithin p s
path_in_scope_iff p s = (path_in_scope_sound p s, path_in_scope_complete p s)

abbrev pub InScope : Option Text → Text → Type 0
InScope none rel_path = Unit
InScope (some scope) rel_path = IsWithin rel_path scope

module _ {F : Type 0} (config : AssemblyConfig F) where
  -- The paths that a configuration asks for.
  pub record IsWanted (rel_path : Text) : Type 0 where
    pub scoped : InScope config.scope rel_path
    pub no_doc : (config.include_docs ≡ true) ⊎ (is_doc_path rel_path ≡ false)

  scoped_of :
      (scope : Option Text) (p : Text)
      → elim scope as (λ _. Bool) [ none ↦ true | some s ↦ path_in_scope p s ] ≡ true
      → InScope scope p
  scoped_of none p h = tt
  scoped_of (some s) p h = path_in_scope_sound p s h

  doc_tested :
      (include doc : Bool) → (not include && doc) ≡ false → (include ≡ true) ⊎ (doc ≡ false)
  doc_tested true doc h = inl refl
  doc_tested false doc h = inr h

  path_allowed-IsWanted : (p : Text) → path_allowed config p ≡ true → IsWanted p
  unfolding path_allowed
  path_allowed-IsWanted p h = record {
    scoped = scoped_of config.scope p (ground arith);
    no_doc = doc_tested config.include_docs (is_doc_path p) (ground arith);
  }

  module _ ⦃f : FloatOps F⦄ where
    -- What holds of a result that is let in.
    pub record IsDirect (r : HybridResult F) : Type 0 where
      pub wanted : IsWanted r.rel_path
      pub relevant : f.lt r.relevance_score config.min_relevance ≡ false

    select_direct-IsDirect :
        (top : F) (results : List (HybridResult F))
        → All IsDirect (select_direct config top results).0
    unfolding select_direct
    select_direct-IsDirect top [] = tt
    select_direct-IsDirect top (r ∷ results) =
        let rest = select_direct-IsDirect top results in
        elim (Bool-cases (path_allowed config r.rel_path)) [
          | inr out ↦ rw out rest
          | inl allowed ↦
              elim (Bool-cases
                (f.lt (normalized_score r.relevance_score top) config.min_relevance)) [
                  | inl low ↦ rw (allowed, low) rest
                  | inr passes ↦
                      rw (allowed, passes)
                        (
                          record {
                            wanted = path_allowed-IsWanted r.rel_path allowed;
                            relevant = passes;
                          },
                          rest,
                        )
                ]
        ]

    widened_IsDirect :
        (d : HybridResult F) (xs : List (HybridResult F))
        → All IsDirect xs
        → Any (Widens d) xs
        → IsDirect d
    widened_IsDirect d [] h k = elim k [ ]
    widened_IsDirect d (x ∷ xs) h (inl e) = record {
      wanted = rw e h.0.wanted;
      relevant = rw e h.0.relevant;
    }
    widened_IsDirect d (x ∷ xs) h (inr k) = widened_IsDirect d xs h.1 k

    merged_IsDirect :
        (merge : Bool) (direct : List (HybridResult F))
        → All IsDirect direct
        → All IsDirect (if merge then deduplicate direct else direct)
    merged_IsDirect false direct passed = passed
    merged_IsDirect true direct passed =
        All-imp (λ d. Any (Widens d) direct) IsDirect (λ d h. widened_IsDirect d direct passed h)
          (deduplicate direct) (deduplicate-FromInput direct)

    -- Every direct result of a package, merged or not, lies in the scope, is no document where
    -- documents are excluded, and does not score below `min_relevance`.
    pub direct_results-IsDirect :
        (results : List (HybridResult F)) → All IsDirect (direct_results config results)
    unfolding direct_results
    direct_results-IsDirect results =
        let top = max_hybrid_score (f.literal 0 1) results in
        merged_IsDirect config.deduplicate (select_direct config top results).0
          (select_direct-IsDirect top results)
