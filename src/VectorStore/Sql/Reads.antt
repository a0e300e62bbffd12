-- ===== src/VectorStore/Sql/Reads.antt =====
-- How SQL reads the predicates of src/vector_store/mod.rs: a string literal stands between single
-- quotes, and two quotes in it stand for one.
use vektor.Common.{
  ℕ, zero, suc, ◌≤◌, ◌==◌, false, Option, some, none, List, [], ◌∷◌, ◌++◌, map, length, ◌≡◌, refl,
  ap, ◌∙◌, arith, append_assoc, if◌then◌else◌, inl, inr, Bool-cases,
}
use vektor.Common.Text.{Text, codes, strip_prefix, join, replace_by}
use vektor.VectorStore.Sql.{escape_sql_string_literal, quoted, rel_paths_in_predicate}

abbrev with_char : ℕ → Option (Text × Text) → Option (Text × Text)
with_char c none = none
with_char c (some (value, rest)) = some (c ∷ value, rest)

-- The value of a literal whose opening quote has been read, and what stands after it.
unfoldable pub read_literal : Text → Option (Text × Text)
read_literal [] = none
read_literal (c ∷ []) = if c == b'\'' then some ([], []) else none
read_literal (c ∷ d ∷ s) =
    let after_pair = read_literal s in
    let after_one = read_literal (d ∷ s) in
    if c == b'\''
    then if d == b'\'' then with_char c after_pair else some ([], d ∷ s)
    else with_char c after_one

-- What follows a literal of a list: a comma and more literals, read by `more`, or the closing
-- parenthesis and the end.
unfoldable pub read_rest : (Text → Option (List Text)) → Text → Text → Option (List Text)
read_rest more value rest = elim (strip_prefix rest (codes ", ")) [
  | some next ↦ elim (more next) [ none ↦ none | some values ↦ some (value ∷ values) ]
  | none ↦ elim (strip_prefix rest (codes ")")) [
    | some [] ↦ some (value ∷ [])
    | some (c ∷ junk) ↦ none
    | none ↦ none
  ]
]

unfoldable pub read_literals : ℕ → Text → Option (List Text)
read_literals zero s = none
read_literals (suc fuel) [] = none
read_literals (suc fuel) (q ∷ s) =
    if q == b'\''
    then elim (read_literal s) [
      | none ↦ none
      | some (value, rest) ↦ read_rest (λ t. read_literals fuel t) value rest
    ]
    else none

unfoldable pub read_in_predicate : ℕ → Text → Option (List Text)
read_in_predicate fuel s = elim (strip_prefix s (codes "rel_path IN (")) [
  | none ↦ none
  | some rest ↦ read_literals fuel rest
]

read_literal-plain :
    (v : ℕ) (t : Text) → (v == b'\'') ≡ false → read_literal (v ∷ t) ≡ with_char v (read_literal t)
unfolding read_literal
read_literal-plain v [] n = rw n refl
read_literal-plain v (c ∷ t) n = rw n refl

read_literal-escaped :
    (value : Text) (c : ℕ) (rest : Text)
    → (c == b'\'') ≡ false
    → read_literal (escape_sql_string_literal value ++ (codes "'" ++ (c ∷ rest)))
      ≡ some (value, c ∷ rest)
unfolding escape_sql_string_literal replace_by read_literal
read_literal-escaped [] c rest n = rw n refl
read_literal-escaped (v ∷ value) c rest n =
    let later = read_literal-escaped value c rest n in
    elim (Bool-cases (v == b'\'')) [
      | inl e ↦
          let quote : b'\'' ≡ v = ground arith in
          rw (e, later) (ap (λ x. some (x ∷ value, c ∷ rest)) quote)
      | inr e ↦ rw e (read_literal-plain v _ e ∙ ap (with_char v) later)
    ]

read_literals-quoted :
    (fuel : ℕ) (path : Text) (paths : List Text)
    → length paths ≤ fuel
    → read_literals (suc fuel) (join (codes ", ") (map quoted (path ∷ paths)) ++ codes ")")
      ≡ some (path ∷ paths)
unfolding read_literals quoted join read_rest strip_prefix
read_literals-quoted fuel path [] h =
    rw (append_assoc (escape_sql_string_literal path) (codes "'") (codes ")"))
      (rw (read_literal-escaped path b')' [] refl) refl)
read_literals-quoted zero path (next ∷ paths) h = absurd (omega (arith, h))
read_literals-quoted (suc fuel) path (next ∷ paths) h =
    let value = escape_sql_string_literal path in
    let others = join (codes ", ") (map quoted (next ∷ paths)) in
    let later = read_literals-quoted fuel next paths (omega (arith, h)) in
    rw
      (
        append_assoc (value ++ codes "'") (codes ", " ++ others) (codes ")"),
        append_assoc value (codes "'") ((codes ", " ++ others) ++ codes ")"),
      )
      (rw (read_literal-escaped path b',' (b' ' ∷ (others ++ codes ")")) refl) (rw later refl))

-- The `IN` predicate that the store builds is read back as exactly the paths that it was given,
-- whatever quotes they hold.
pub read_in_predicate-rel_paths :
    (path : Text) (paths : List Text)
    → read_in_predicate (length (path ∷ paths)) (rel_paths_in_predicate (path ∷ paths))
      ≡ some (path ∷ paths)
unfolding read_in_predicate rel_paths_in_predicate strip_prefix
read_in_predicate-rel_paths path paths =
    read_literals-quoted (length paths) path paths (omega arith)
