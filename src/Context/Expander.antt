-- ===== src/Context/Expander.antt =====
-- src/context/expander.rs: related files are looked up by naming conventions.
pub mod Names
pub mod Limits
mod Tests
pub use Names.{high_tier_candidates, low_tier_candidates}
use vektor.Common.{
  ℕ, ◌+◌, Ordering, compare, Bool, true, false, ◌&&◌, not, Option, some, none, List, [], ◌∷◌, ◌++◌,
  length, take, filter, map, ltb, leb, if◌then◌else◌,
}
use vektor.Common.Text.{Text, codes, text_eq, text_cmp, member, insert_text, replace_by}
use vektor.Common.Sort.{sort_by, then_with}
use vektor.Common.Float.{FloatOps}
use vektor.Common.Words.{saturating_add}
use vektor.Common.Outcome.{Result, ok, err, ◌>>=◌}
use vektor.Search.Types.{HybridResult, SearchResult}
use vektor.Context.Types.{ContextChunk, ChunkSource}

abbrev pub max_expanded_files : ℕ
max_expanded_files = 5

abbrev pub max_chunks_per_file : ℕ
max_chunks_per_file = 3

abbrev pub hub_import_degree_threshold : ℕ
hub_import_degree_threshold = 20

-- The trait `RelatedChunkStore`, which the vector store implements.
pub record RelatedChunkStore (F : Type 0) : Type 0 where
  pub search_related_chunks : List F → ℕ → Option Text → Result (List (SearchResult F))
  pub import_degree : Text → ℕ

pub record ExpansionCandidate (F : Type 0) : Type 0 where
  pub rel_path : Text
  pub multiplier : F
  pub order : ℕ

-- The map `by_path`, in the order of insertion, and `next_order`.
pub record CandidateMap (F : Type 0) : Type 0 where
  pub by_path : List (ExpansionCandidate F)
  pub next_order : ℕ

-- What the loops of `expand` fill.
pub record Expansion (F : Type 0) : Type 0 where
  pub expanded : List (ContextChunk F)
  pub expanded_files : List Text

-- The predicate on the path, its quotes doubled by `sql_string_literal`.
pub path_filter : Text → Text
path_filter rel_path = codes "rel_path = '" ++ (replace_by 39 (codes "''") rel_path ++ codes "'")

module _ {F : Type 0} ⦃f : FloatOps F⦄ where
  -- The first two arms of the match: an entry of the path is raised, or kept.
  pub raise_existing : Text → F → List (ExpansionCandidate F) → Option (List (ExpansionCandidate F))
  raise_existing rel_path multiplier [] = none
  raise_existing rel_path multiplier (e ∷ es) =
      let rest = raise_existing rel_path multiplier es in
      if text_eq e.rel_path rel_path
      then some
          ((if f.lt e.multiplier multiplier then record e { multiplier = multiplier } else e) ∷ es)
      else elim rest [ none ↦ none | some es' ↦ some (e ∷ es') ]

  pub insert_candidate : CandidateMap F → Text → F → CandidateMap F
  insert_candidate m rel_path multiplier = elim (raise_existing rel_path multiplier m.by_path) [
    | some by_path ↦ record m { by_path = by_path }
    | none ↦ record {
      by_path =
          m.by_path
          ++ (record { rel_path = rel_path; multiplier = multiplier; order = m.next_order } ∷ []);
      next_order = saturating_add m.next_order 1;
    }
  ]

  pub insert_all : CandidateMap F → List Text → F → CandidateMap F
  insert_all m [] multiplier = m
  insert_all m (path ∷ paths) multiplier =
      insert_all (insert_candidate m path multiplier) paths multiplier

  -- One loop over the results, at one tier.
  pub insert_tier : (Text → List Text) → F → CandidateMap F → List (HybridResult F) → CandidateMap F
  insert_tier names multiplier m [] = m
  insert_tier names multiplier m (result ∷ results) =
      insert_tier names multiplier (insert_all m (names result.rel_path) multiplier) results

  abbrev pub by_tier : ExpansionCandidate F → ExpansionCandidate F → Ordering
  by_tier left right =
      then_with (f.total_cmp right.multiplier left.multiplier)
        (then_with (compare left.order right.order) (text_cmp left.rel_path right.rel_path))

  pub candidate_files :
      List (HybridResult F) → List Text → RelatedChunkStore F → List (ExpansionCandidate F)
  candidate_files results direct_files store =
      let high =
        insert_tier high_tier_candidates (f.literal 6 10) (record { by_path = []; next_order = 0 })
          results in
      let both = insert_tier low_tier_candidates (f.literal 4 10) high results in
      let candidates = sort_by by_tier both.by_path in
      filter (λ c. leb (store.import_degree c.rel_path) hub_import_degree_threshold)
        (filter (λ c. not (member c.rel_path direct_files)) candidates)

  pub semantic_similarity : F → F
  semantic_similarity distance =
      let d = if f.is_finite distance then f.fmax distance (f.literal 0 1) else f.greatest in
      f.div (f.literal 1 1) (f.add (f.literal 1 1) d)

  pub context_chunk_from_search_result : SearchResult F → F → F → ContextChunk F
  context_chunk_from_search_result hit relevance_score multiplier = record {
    chunk_id = hit.id;
    content = hit.content;
    rel_path = hit.rel_path;
    first_line = hit.start_line;
    last_line = hit.end_line;
    symbol = hit.symbol_name;
    symbol_type = hit.symbol_type;
    language = hit.language;
    relevance_score = relevance_score;
    source = ChunkSource.related;
    reason = codes "Related context at " ++ (f.show_tenths multiplier ++ codes "x expansion tier");
    is_expanded = true;
    last_modified = hit.last_modified;
  }

  -- The inner loop over the hits of one candidate.
  pub take_hits : F → List (SearchResult F) → Expansion F → Expansion F
  take_hits multiplier [] st = st
  take_hits multiplier (hit ∷ hits) st =
      let similarity = semantic_similarity hit.score in
      elim (f.le similarity (f.literal 3 10)) [
        | true ↦ take_hits multiplier hits st
        | false ↦
            elim (not (member hit.rel_path st.expanded_files)
              && leb max_expanded_files (length st.expanded_files)) [
                | true ↦ st
                | false ↦ take_hits multiplier hits (record {
                  expanded =
                      st.expanded
                      ++ (context_chunk_from_search_result hit (f.mul similarity multiplier)
                            multiplier
                          ∷ []);
                  expanded_files = insert_text hit.rel_path st.expanded_files;
                })
              ]
      ]

  -- The outer loop over the candidates.
  pub expand_candidates :
      List F
      → RelatedChunkStore F
      → List (ExpansionCandidate F)
      → Expansion F
      → Result (Expansion F)
  expand_candidates query_vec store [] st = ok st
  expand_candidates query_vec store (c ∷ cs) st =
      elim (leb max_expanded_files (length st.expanded_files)) [
        | true ↦ ok st
        | false ↦ do
          hits ←
              store.search_related_chunks query_vec max_chunks_per_file
                (some (path_filter c.rel_path))
          expand_candidates query_vec store cs
              (take_hits c.multiplier (take max_chunks_per_file hits) st)
      ]

  pub expand : List (HybridResult F) → List F → RelatedChunkStore F → Result (List (ContextChunk F))
  expand [] query_vec store = ok []
  expand (r ∷ rs) query_vec store =
      let results = r ∷ rs in
      let direct_files = map (λ (result : HybridResult F). result.rel_path) results in
      do
        st ←
            expand_candidates query_vec store (candidate_files results direct_files store)
              (record { expanded = []; expanded_files = [] })
        ok st.expanded
