-- ===== src/VectorStore/Sql.antt =====
-- src/vector_store/mod.rs: the predicates that it splices paths into, as text.
pub mod Reads
use vektor.Common.{List, [], ◌∷◌, ◌++◌, map}
use vektor.Common.Text.{Text, codes, replace_by, join}

unfoldable pub escape_sql_string_literal : Text → Text
unfolding replace_by
escape_sql_string_literal = replace_by b'\'' (codes "''")

-- `format!("'{}'", ...)`
unfoldable pub quoted : Text → Text
quoted path = codes "'" ++ (escape_sql_string_literal path ++ codes "'")

unfoldable pub rel_paths_in_predicate : List Text → Text
rel_paths_in_predicate rel_paths =
    codes "rel_path IN (" ++ (join (codes ", ") (map quoted rel_paths) ++ codes ")")

-- The predicate of `chunks_by_ids`.
unfoldable pub ids_predicate : List Text → Text
ids_predicate chunk_ids = join (codes " OR ") (map (λ id. codes "id = " ++ quoted id) chunk_ids)
