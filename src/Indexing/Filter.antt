-- ===== src/Indexing/Filter.antt =====
-- Which files an index run takes (src/cli.rs).
use vektor.Common.{Bool, false, Option, some, none, List, any, filter}
use vektor.Common.Text.{Text, text_eq, lower}
use vektor.Common.FilePath.{extension}
use vektor.Indexing.{IndexFile}

unfoldable pub file_matches_extensions : Text → List Text → Bool
file_matches_extensions rel_path extensions = elim (extension rel_path) [
  | none ↦ false
  | some ext ↦ any (λ allowed. text_eq allowed (lower ext)) extensions
]

unfoldable pub filter_index_files : List IndexFile → Option (List Text) → List IndexFile
unfolding file_matches_extensions
filter_index_files files none = files
filter_index_files files (some extensions) =
    filter (λ (file : IndexFile). file_matches_extensions file.rel_path extensions) files
