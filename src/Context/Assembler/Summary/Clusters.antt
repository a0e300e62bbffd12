-- ===== src/Context/Assembler/Summary/Clusters.antt =====
-- How many chunks the clusters of src/context/assembler.rs count.
use vektor.Common.{
  ℕ, suc, ◌+◌, ◌≤◌, Ordering, List, [], ◌∷◌, map, ◌≡◌, ◌≢◌, refl, sym, ap, arith, inl, inr, ◌⊎◌,
  Bool-cases, length, length-append, length-map, leb, if◌then◌else◌, All, Any, Pairwise, All-map,
  All-imp, Any-map,
}
use vektor.Common.Text.{Text, text_eq, text_eq→eq, eq→text_eq, text_cmp}
use vektor.Common.Sort.{insert_by, sort_by, length-sort_by, sort_by-Pairwise}
use vektor.Common.Float.{FloatOps}
use vektor.Context.Types.{ResultCluster, ContextChunk}
use vektor.Context.Assembler.Summary.{push_score, group_scores, sum_scores, clusters, path_prefix}

module _ {F : Type 0} where
  -- The chunks that lie in a directory, and those that the clusters count for it.
  abbrev pub tally : Text → List (ContextChunk F) → ℕ
  tally dir [] = 0
  tally dir (c ∷ chunks) =
      let rest = tally dir chunks in if text_eq (path_prefix c.rel_path) dir then suc rest else rest

  abbrev pub counted : Text → List (ResultCluster F) → ℕ
  counted dir [] = 0
  counted dir (c ∷ cs) =
      let rest = counted dir cs in if text_eq c.path_prefix dir then c.chunk_count + rest else rest

  -- The directories of the chunks are among some texts.
  abbrev pub LieIn : List Text → List (ContextChunk F) → Type 0
  LieIn dirs chunks =
      All (λ (c : ContextChunk F). Any (λ d. d ≡ path_prefix c.rel_path) dirs) chunks

  abbrev pushed : Text → List (Text × List F) → ℕ
  pushed dir [] = 0
  pushed dir (g ∷ groups) =
      let rest = pushed dir groups in if text_eq g.0 dir then length g.1 + rest else rest

  abbrev Apart : Text × List F → Text × List F → Type 0
  Apart g h = g.0 ≢ h.0

  abbrev HasGroup : Text → List (Text × List F) → Type 0
  HasGroup dir = Any (λ (g : Text × List F). g.0 ≡ dir)

  counted-insert_by :
      (cmp : ResultCluster F → ResultCluster F → Ordering) (dir : Text) (c : ResultCluster F)
      (cs : List (ResultCluster F))
      → counted dir (insert_by cmp c cs) ≡ counted dir (c ∷ cs)
  unfolding insert_by
  counted-insert_by cmp dir c [] = refl
  counted-insert_by cmp dir c (x ∷ cs) = ground (arith, counted-insert_by cmp dir c cs)

  counted-sort_by :
      (cmp : ResultCluster F → ResultCluster F → Ordering) (dir : Text)
      (cs : List (ResultCluster F))
      → counted dir (sort_by cmp cs) ≡ counted dir cs
  unfolding sort_by
  counted-sort_by cmp dir [] = refl
  counted-sort_by cmp dir (c ∷ cs) =
      ground (arith, counted-insert_by cmp dir c (sort_by cmp cs), counted-sort_by cmp dir cs)

  module _ (average : Text × List F → F) where
    abbrev cluster_of : Text × List F → ResultCluster F
    cluster_of g = record { path_prefix = g.0; chunk_count = length g.1; avg_relevance = average g }

    counted-map :
        (dir : Text) (groups : List (Text × List F))
        → counted dir (map cluster_of groups) ≡ pushed dir groups
    counted-map dir [] = refl
    counted-map dir (g ∷ groups) = ground (arith, counted-map dir groups)

    map-Pairwise :
        (groups : List (Text × List F))
        → Pairwise Apart groups
        → Pairwise
            (λ (a b : ResultCluster F). a.path_prefix ≢ b.path_prefix)
            (map cluster_of groups)
    map-Pairwise [] h = tt
    map-Pairwise (g ∷ groups) h = (
      All-map (λ (b : ResultCluster F). g.0 ≢ b.path_prefix) cluster_of groups h.0,
      map-Pairwise groups h.1,
    )

  module _ ⦃f : FloatOps F⦄ where
    pushed-push_score :
        (dir prefix : Text) (score : F) (groups : List (Text × List F))
        → pushed dir (push_score prefix score groups)
          ≡ (if text_eq prefix dir then suc (pushed dir groups) else pushed dir groups)
    unfolding push_score
    pushed-push_score dir prefix score [] = refl
    pushed-push_score dir prefix score ((p, scores) ∷ groups) =
        elim (Bool-cases (text_eq p prefix)) [
          | inl same ↦
              let e : text_eq p dir ≡ text_eq prefix dir =
                ap (λ t. text_eq t dir) (text_eq→eq p prefix same) in
              rw (same, e) (ground (arith, length-append scores (score ∷ [])))
          | inr other ↦ rw other (ground (arith, pushed-push_score dir prefix score groups))
        ]

    pushed-group_scores :
        (dir : Text) (groups : List (Text × List F)) (chunks : List (ContextChunk F))
        → pushed dir (group_scores groups chunks) ≡ pushed dir groups + tally dir chunks
    unfolding group_scores
    pushed-group_scores dir groups [] = omega arith
    pushed-group_scores dir groups (c ∷ chunks) = ground (
      arith,
      pushed-group_scores dir (push_score (path_prefix c.rel_path) c.relevance_score groups) chunks,
      pushed-push_score dir (path_prefix c.rel_path) c.relevance_score groups,
    )

    push_score-All :
        (P : Text → Type 0) (prefix : Text) (score : F) (groups : List (Text × List F))
        → P prefix
        → All (λ (g : Text × List F). P g.0) groups
        → All (λ (g : Text × List F). P g.0) (push_score prefix score groups)
    unfolding push_score
    push_score-All P prefix score [] p h = (p, tt)
    push_score-All P prefix score ((q, scores) ∷ groups) p h =
        elim (Bool-cases (text_eq q prefix)) [
          | inl same ↦ rw same h
          | inr other ↦ rw other (h.0, push_score-All P prefix score groups p h.1)
        ]

    push_score-Pairwise :
        (prefix : Text) (score : F) (groups : List (Text × List F))
        → Pairwise Apart groups
        → Pairwise Apart (push_score prefix score groups)
    unfolding push_score
    push_score-Pairwise prefix score [] h = (tt, tt)
    push_score-Pairwise prefix score ((q, scores) ∷ groups) h =
        elim (Bool-cases (text_eq q prefix)) [
          | inl same ↦ rw same h
          | inr other ↦ rw other (
            push_score-All (λ t. q ≢ t) prefix score groups
                (λ same. absurd (ground (arith, eq→text_eq q prefix same))) h.0,
            push_score-Pairwise prefix score groups h.1,
          )
        ]

    push_score-old :
        (dir prefix : Text) (score : F) (groups : List (Text × List F))
        → HasGroup dir groups
        → HasGroup dir (push_score prefix score groups)
    unfolding push_score
    push_score-old dir prefix score [] h = elim h [ ]
    push_score-old dir prefix score ((q, scores) ∷ groups) h =
        elim (Bool-cases (text_eq q prefix)) [
          | inl same ↦ rw same h
          | inr other ↦ rw other (elim h [
            | inl here ↦ inl here
            | inr rest ↦ inr (push_score-old dir prefix score groups rest)
          ])
        ]

    push_score-new :
        (prefix : Text) (score : F) (groups : List (Text × List F))
        → HasGroup prefix (push_score prefix score groups)
    unfolding push_score
    push_score-new prefix score [] = inl refl
    push_score-new prefix score ((q, scores) ∷ groups) = elim (Bool-cases (text_eq q prefix)) [
      | inl same ↦ rw same (inl (text_eq→eq q prefix same))
      | inr other ↦ rw other (inr (push_score-new prefix score groups))
    ]

    group_scores-Pairwise :
        (groups : List (Text × List F)) (chunks : List (ContextChunk F))
        → Pairwise Apart groups
        → Pairwise Apart (group_scores groups chunks)
    unfolding group_scores
    group_scores-Pairwise groups [] h = h
    group_scores-Pairwise groups (c ∷ chunks) h =
        group_scores-Pairwise (push_score (path_prefix c.rel_path) c.relevance_score groups) chunks
          (push_score-Pairwise (path_prefix c.rel_path) c.relevance_score groups h)

    group_scores-old :
        (dir : Text) (groups : List (Text × List F)) (chunks : List (ContextChunk F))
        → HasGroup dir groups
        → HasGroup dir (group_scores groups chunks)
    unfolding group_scores
    group_scores-old dir groups [] h = h
    group_scores-old dir groups (c ∷ chunks) h =
        group_scores-old dir (push_score (path_prefix c.rel_path) c.relevance_score groups) chunks
          (push_score-old dir (path_prefix c.rel_path) c.relevance_score groups h)

    group_scores-new :
        (groups : List (Text × List F)) (chunks : List (ContextChunk F))
        → All
            (λ (c : ContextChunk F). HasGroup (path_prefix c.rel_path) (group_scores groups chunks))
            chunks
    unfolding group_scores
    group_scores-new groups [] = tt
    group_scores-new groups (c ∷ chunks) = (
      group_scores-old (path_prefix c.rel_path)
          (push_score (path_prefix c.rel_path) c.relevance_score groups) chunks
          (push_score-new (path_prefix c.rel_path) c.relevance_score groups),
      group_scores-new (push_score (path_prefix c.rel_path) c.relevance_score groups) chunks,
    )

    -- Either a package has no clusters and its chunks lie in at most two directories, or it has at
    -- least three clusters, no two of the same directory, and for every directory they count exactly
    -- the chunks that lie in it.
    pub clusters-count :
        (chunks : List (ContextChunk F))
        → let found = clusters chunks in
          ((found ≡ []) × ((dirs : List Text) × (length dirs ≤ 2) × LieIn dirs chunks))
          ⊎ ((3 ≤ length found)
              × Pairwise (λ (a b : ResultCluster F). a.path_prefix ≢ b.path_prefix) found
              × ((dir : Text) → counted dir found ≡ tally dir chunks))
    unfolding clusters
    clusters-count chunks =
        let groups = group_scores [] chunks in
        let average : Text × List F → F =
          λ g. f.div (sum_scores (f.literal 0 1) g.1) (f.from_usize (length g.1)) in
        let unsorted = map (cluster_of average) groups in
        let cmp : ResultCluster F → ResultCluster F → Ordering =
          λ l r. text_cmp l.path_prefix r.path_prefix in
        elim (Bool-cases (leb (length groups) 2)) [
          | inl few ↦ inl (
            rw few refl,
            (
              map (λ (g : Text × List F). g.0) groups,
              rw (length-map groups (λ (g : Text × List F). g.0)) (ground arith),
              All-imp (λ (c : ContextChunk F). HasGroup (path_prefix c.rel_path) groups) _
                  (λ c h.
                    Any-map (λ d. d ≡ path_prefix c.rel_path) (λ (g : Text × List F). g.0) groups h)
                  chunks (group_scores-new [] chunks),
            ),
          )
          | inr many ↦ rw many (
              inr (
                rw (length-sort_by cmp unsorted, length-map groups (cluster_of average))
                    (ground arith),
                sort_by-Pairwise cmp (λ (a b : ResultCluster F). a.path_prefix ≢ b.path_prefix)
                    (λ a b n e. n (sym e)) unsorted
                    (map-Pairwise average groups (group_scores-Pairwise [] chunks tt)),
                (λ dir.
                    rw (counted-sort_by cmp dir unsorted, counted-map average dir groups)
                      (omega (arith, pushed-group_scores dir [] chunks))),
              ))
        ]
