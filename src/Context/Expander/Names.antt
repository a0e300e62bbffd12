-- ===== src/Context/Expander/Names.antt =====
-- src/context/expander.rs: the file names that are tried for a result.
use vektor.Common.{Bool, Option, some, none, List, [], ◌∷◌, ◌++◌, map, if◌then◌else◌}
use vektor.Common.Text.{Text, codes, member, dedup_texts}
use vektor.Common.FilePath.{file_name, file_stem, parent, extension, path_join, normalized_path}

-- `format!("{a}{b}{c}{d}")` and longer.
abbrev concat : List Text → Text
concat [] = []
concat (s ∷ ss) = s ++ concat ss

pub dedup_paths : List Text → List Text
unfolding dedup_texts
dedup_paths = dedup_texts []

pub parent_dir_name : Text → Option Text
unfolding parent file_name
parent_dir_name path = elim (parent path) [ none ↦ none | some dir ↦ file_name dir ]

-- Whether the extension is one of JavaScript or TypeScript.
pub is_script : Text → Bool
unfolding member
is_script ext = member ext (map codes ("js" ∷ "jsx" ∷ "ts" ∷ "tsx" ∷ []))

pub stem_candidates : Text → Text → List Text
unfolding is_script
stem_candidates stem ext =
    concat (codes "tests/test_" ∷ stem ∷ codes "." ∷ ext ∷ [])
    ∷ (concat (codes "tests/" ∷ stem ∷ codes "_test." ∷ ext ∷ [])
        ∷ (if is_script ext
            then concat (codes "tests/" ∷ stem ∷ codes ".test." ∷ ext ∷ []) ∷ []
            else []))

pub parent_candidates : Text → Text → Text → List Text
unfolding is_script
parent_candidates parent_name stem ext =
    concat (codes "tests/test_" ∷ parent_name ∷ codes "." ∷ ext ∷ [])
    ∷ (concat (codes "tests/" ∷ parent_name ∷ codes "_test." ∷ ext ∷ [])
        ∷ (concat (codes "tests/" ∷ parent_name ∷ codes "/test_" ∷ stem ∷ codes "." ∷ ext ∷ [])
            ∷ (concat (codes "tests/" ∷ parent_name ∷ codes "/" ∷ stem ∷ codes "_test." ∷ ext ∷ [])
                ∷ (if is_script ext
                    then concat (
                        codes "tests/" ∷ parent_name ∷ codes "/" ∷ stem ∷ codes ".test." ∷ ext ∷ [])
                      ∷ []
                    else []))))

pub high_tier_candidates : Text → List Text
unfolding dedup_paths parent_dir_name stem_candidates parent_candidates extension file_stem member
high_tier_candidates rel_path = elim (extension rel_path) [
  | none ↦ []
  | some ext ↦ elim (file_stem rel_path) [
    | none ↦ []
    | some stem ↦
        let more : List Text = elim (parent_dir_name rel_path) [
          | none ↦ []
          | some parent_name ↦
              if member parent_name (map codes ("src" ∷ "tests" ∷ "test" ∷ []))
              then []
              else parent_candidates parent_name stem ext
        ] in
        dedup_paths (stem_candidates stem ext ++ more)
  ]
]

pub low_tier_candidates : Text → List Text
unfolding dedup_paths parent path_join normalized_path
low_tier_candidates rel_path = elim (parent rel_path) [
  | none ↦ []
  | some dir ↦ dedup_paths (
      map (λ name. normalized_path (path_join dir (codes name)))
        ("mod.rs" ∷ "index.ts" ∷ "index.tsx" ∷ "index.js" ∷ "index.jsx" ∷ []))
]
