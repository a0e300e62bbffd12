-- ===== src/Search/Synonyms/Tests.antt =====
-- Runs of src/search/synonyms.rs.
use vektor.Common.{◌≡◌, refl}
use vektor.Common.Text.{codes, lower, to_ascii_lowercase, text_eq, join}
use vektor.Search.Synonyms.{
  expand, expand_token, synonyms_for, find_term, push_token, tokenize_query, tokenize_query_from,
}
use vektor.Search.Synonyms.Words.{IsQuery, expand-IsQuery}

chunk_group :
    expand (codes "My-Chunk!") ≡ codes "my OR (chunk OR segment OR slice OR span OR section)"
unfolding expand expand_token synonyms_for find_term push_token tokenize_query tokenize_query_from
    lower to_ascii_lowercase text_eq join
chunk_group = refl

expand-IsQuery_example : IsQuery (expand (codes "db:\"x\""))
expand-IsQuery_example = expand-IsQuery (codes "db:\"x\"")
