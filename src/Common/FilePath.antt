-- ===== src/Common/FilePath.antt =====
-- The operations of `std::path::Path` on relative paths with `/` between nonempty parts, none of
-- them `.`, as the discovery layer produces them.
use mathlib.Core.Bool.{◌||◌}
use mathlib.Core.Option.{Option, none, some}
use mathlib.Core.List.{[], ◌∷◌, ◌++◌}
use vektor.Common.Tests.{if◌then◌else◌}
use vektor.Common.Text.{Text, codes, text_eq, is_empty, rsplit_once, replace_char}

unfoldable pub file_name : Text → Option Text
unfolding rsplit_once text_eq is_empty
file_name path =
    let name : Text = elim (rsplit_once b'/' path) [ some (dir, name) ↦ name | none ↦ path ] in
    if is_empty name || text_eq name (codes "..") then none else some name

-- The parent of a single part is the empty path; the empty path has none.
unfoldable pub parent : Text → Option Text
unfolding rsplit_once is_empty
parent path =
    if is_empty path
    then none
    else elim (rsplit_once b'/' path) [ some (dir, name) ↦ some dir | none ↦ some [] ]

-- A name that only begins with its dot has no extension.
unfoldable pub extension : Text → Option Text
unfolding file_name rsplit_once is_empty
extension path = elim (file_name path) [
  | none ↦ none
  | some name ↦ elim (rsplit_once b'.' name) [
    | none ↦ none
    | some (stem, ext) ↦ if is_empty stem then none else some ext
  ]
]

unfoldable pub file_stem : Text → Option Text
unfolding file_name rsplit_once is_empty
file_stem path = elim (file_name path) [
  | none ↦ none
  | some name ↦ elim (rsplit_once b'.' name) [
    | none ↦ some name
    | some (stem, ext) ↦ if is_empty stem then some name else some stem
  ]
]

unfoldable pub path_join : Text → Text → Text
unfolding is_empty
path_join dir name = if is_empty dir then name else dir ++ (b'/' ∷ name)

-- `to_string_lossy().replace('\\', "/")`.
unfoldable pub normalized_path : Text → Text
unfolding replace_char
normalized_path path = replace_char 92 b'/' path
