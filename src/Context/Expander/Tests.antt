-- ===== src/Context/Expander/Tests.antt =====
-- Runs of src/context/expander.rs on a store with two related files, scores in thousandths.
use vektor.Common.{ℕ, [], ◌∷◌, ◌≡◌, refl}
use vektor.Common.Milli.{milli}
use vektor.Common.Text.{codes}
use vektor.Common.Outcome.{ok, OnOk}
use vektor.Samples.{row, two_overlapping}
use vektor.Context.Expander.{RelatedChunkStore, semantic_similarity, expand}
use vektor.Context.Expander.Limits.{FromFewFiles, expand-FromFewFiles}

abbrev related : RelatedChunkStore ℕ
related = record {
  search_related_chunks =
      λ query limit filter. ok (row (codes "t") (codes "src/a_test.rs") 250 ∷ []);
  import_degree = λ path. 0;
}

quarter_away : semantic_similarity {F = ℕ} 250 ≡ 800
unfolding semantic_similarity
quarter_away = refl

expand-FromFewFiles_example : OnOk FromFewFiles (expand two_overlapping (1 ∷ []) related)
expand-FromFewFiles_example = expand-FromFewFiles two_overlapping (1 ∷ []) related
