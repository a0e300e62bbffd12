-- ===== src/Embedder/Onnx.antt =====
-- src/embedder/onnx.rs: the local backend, whose batches are sorted by length. `V` stands for a
-- vector; the session that embeds a batch and the file system are parameters.
pub mod Restore
use vektor.Common.{
  ℕ, zero, suc, ◌+◌, ◌/◌, Bool, true, false, not, ◌||◌, Option, some, none, List, [], ◌∷◌, ◌++◌,
  map, length, if◌then◌else◌, Ordering, compare,
}
use vektor.Common.Text.{Text, codes, byte_len, lower, contains, replace_by, join}
use vektor.Common.FilePath.{path_join}
use vektor.Common.Sort.{sort_by}
use vektor.Common.Batches.{chunks}
use vektor.Common.Outcome.{Result, ok, err, ◌>>=◌, VektorError}

abbrev pub max_batch_size : ℕ
max_batch_size = 32

unfoldable pub safe_model_name : Text → Text
safe_model_name = replace_by b'/' (codes "--")

unfoldable pub model_dir : Result Text → Text → Result Text
model_dir expanded_data_dir onnx_model = expanded_data_dir >>= λ base.
    ok (path_join (path_join base (codes "models")) (safe_model_name onnx_model))

unfoldable pub tokenizer_path : Text → Text
tokenizer_path dir = path_join dir (codes "tokenizer.json")

unfoldable pub onnx_model_path : Text → Text
onnx_model_path dir = path_join (path_join dir (codes "onnx")) (codes "model.onnx")

unfoldable pub missing_artifacts : (Text → Bool) → List Text → List Text
missing_artifacts exists [] = []
missing_artifacts exists (path ∷ paths) =
    if exists path then missing_artifacts exists paths else path ∷ missing_artifacts exists paths

unfoldable pub ensure_artifacts_present : (Text → Bool) → Text → Text → Text → Result (Unit {0})
ensure_artifacts_present exists model_name tokenizer onnx =
    elim (missing_artifacts exists (tokenizer ∷ onnx ∷ [])) [
      | [] ↦ ok tt
      | first ∷ rest ↦ err (
          VektorError.embedding (
            codes "model artifacts for '"
            ++ model_name
            ++ codes "' not found (missing: "
            ++ join (codes ", ") (first ∷ rest)
            ++ codes "). Run `vektor models download` to fetch them."))
    ]

unfoldable pub prefixes_for_model : Text → Text × Text
prefixes_for_model model_name =
    if contains (lower model_name) (codes "jina")
    then (codes "search_document: ", codes "search_query: ")
    else ([], [])

unfoldable pub static_dim_for_model : Text → Option ℕ
static_dim_for_model model_name =
    if contains (lower model_name) (codes "jina-embeddings-v2-base-code")
    then some 768
    else if contains (lower model_name) (codes "bge-small")
    then some 384
    else none

unfoldable pub max_seq_len_for_model : Text → ℕ
max_seq_len_for_model model_name =
    if contains (lower model_name) (codes "jina-embeddings-v2") then 8192 else 512

-- `(start..start + count).collect()`
unfoldable pub range : ℕ → ℕ → List ℕ
range start zero = []
range start (suc count) = start ∷ range (suc start) count

-- Indexing; `none` is the panic.
unfoldable pub get : {A : Type 0} → List A → ℕ → Option A
get [] i = none
get (x ∷ xs) zero = some x
get (x ∷ xs) (suc i) = get xs i

-- `out[slot] = value`; `none` is the panic.
unfoldable pub set : {A : Type 0} → List A → ℕ → A → Option (List A)
set [] slot value = none
set (x ∷ xs) zero value = some (value ∷ xs)
set (x ∷ xs) (suc slot) value = elim (set xs slot value) [ none ↦ none | some ys ↦ some (x ∷ ys) ]

unfoldable pub text_len : List Text → ℕ → ℕ
text_len texts i = elim (get texts i) [ none ↦ 0 | some text ↦ byte_len text ]

unfoldable pub length_sorted_order : List Text → List ℕ
length_sorted_order texts =
    sort_by (λ i j. compare (text_len texts i) (text_len texts j)) (range 0 (length texts))

-- `order.iter().map(|&i| texts[i].clone()).collect()`
unfoldable pub pick : {A : Type 0} → List A → List ℕ → Option (List A)
pick texts [] = some []
pick texts (i ∷ order) = elim (get texts i) [
  | none ↦ none
  | some text ↦ elim (pick texts order) [ none ↦ none | some rest ↦ some (text ∷ rest) ]
]

module _ {V : Type 0} where
  unfoldable pub place : List ℕ → List V → List V → Option (List V)
  place [] sorted out = some out
  place (slot ∷ order) [] out = some out
  place (slot ∷ order) (vector ∷ sorted) out = elim (set out slot vector) [
    | none ↦ none
    | some next ↦ place order sorted next
  ]

  unfoldable pub replicate : ℕ → V → List V
  replicate zero v = []
  replicate (suc n) v = v ∷ replicate n v

  -- `empty` is the empty vector that each slot holds at first.
  unfoldable pub restore_input_order : V → List ℕ → List V → Option (List V)
  restore_input_order empty order sorted = place order sorted (replicate (length sorted) empty)

  unfoldable pub embed_batches : (List Text → Result (List V)) → List (List Text) → Result (List V)
  embed_batches embed_batch [] = ok []
  embed_batches embed_batch (batch ∷ batches) =
      embed_batch batch >>= λ out. embed_batches embed_batch batches >>= λ rest. ok (out ++ rest)

  -- `none` is a panic.
  unfoldable pub embed : V → (List Text → Result (List V)) → List Text → Option (Result (List V))
  embed empty embed_batch [] = some (ok [])
  embed empty embed_batch (text ∷ texts) =
      let order = length_sorted_order (text ∷ texts) in
      elim (pick (text ∷ texts) order) [
        | none ↦ none
        | some sorted_texts ↦
            elim (embed_batches embed_batch (chunks max_batch_size sorted_texts)) [
              | err e ↦ some (err e)
              | ok sorted_out ↦ elim (restore_input_order empty order sorted_out) [
                | none ↦ none
                | some out ↦ some (ok out)
              ]
            ]
      ]
