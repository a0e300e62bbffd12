-- ===== src/Samples.antt =====
-- Small inputs on which the definitions are run and the theorems applied.
use vektor.Common.{ℕ, true, false, none, some, List, [], ◌∷◌}
use vektor.Common.Text.{Text, codes}
use vektor.Common.Int.{pos}
use vektor.Search.Types.{HybridResult, SearchResult, KeywordHit}
use vektor.Context.Types.{AssemblyConfig}

-- A result at a path, over a range of lines, with a score in thousandths.
abbrev pub found : Text → Text → ℕ → ℕ → ℕ → HybridResult ℕ
found id rel_path first last score = record {
  chunk_id = id;
  rel_path = rel_path;
  start_line = first;
  end_line = last;
  symbol_name = none;
  symbol_type = none;
  language = codes "rust";
  content = codes "fn main";
  relevance_score = score;
  semantic_score = none;
  keyword_score = none;
  last_modified = pos 1000;
}

abbrev pub two_overlapping : List (HybridResult ℕ)
two_overlapping =
    found (codes "a") (codes "src/a.rs") 1 20 700
    ∷ found (codes "b") (codes "src/a.rs") 10 30 900
    ∷ found (codes "c") (codes "docs/b.md") 1 9 800
    ∷ []

abbrev pub source_only : AssemblyConfig ℕ
source_only = record {
  token_budget = 10;
  max_files = 2;
  include_related = false;
  min_relevance = 300;
  deduplicate = true;
  include_docs = false;
  scope = some (codes "src");
}

abbrev pub row : Text → Text → ℕ → SearchResult ℕ
row id rel_path score = record {
  score = score;
  id = id;
  content_hash = [];
  rel_path = rel_path;
  start_line = 1;
  end_line = 9;
  symbol_name = none;
  symbol_type = none;
  language = codes "rust";
  content = codes "mod tests";
  last_modified = pos 1000;
}

abbrev pub word_hit : Text → Text → ℕ → KeywordHit ℕ
word_hit id rel_path score = record {
  chunk_id = id;
  rel_path = rel_path;
  content = [];
  score = score;
  start_line = 1;
  end_line = 9;
  symbol_name = none;
  language = codes "rust";
}
