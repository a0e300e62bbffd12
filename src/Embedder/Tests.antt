-- ===== src/Embedder/Tests.antt =====
-- Runs of src/embedder/mod.rs and src/embedder/onnx.rs.
use vektor.Common.{ℕ, true, some, List, [], ◌∷◌, ◌++◌, map, length, ◌≡◌, refl}
use vektor.Common.Text.{
  Text, codes, text_eq, byte_len, utf8_len, lower, contains, starts_with, replace_by, is_empty,
}
use vektor.Common.FilePath.{path_join}
use vektor.Common.Sort.{sort_by, insert_by}
use vektor.Common.Outcome.{ok, err, VektorError}
use vektor.Embedder.{
  Embedder, BackendConfig, build_embedder, with_prefix, last_vector, embed_documents, embed_query,
}
use vektor.Embedder.Onnx.{
  embed, length_sorted_order, text_len, get, range, safe_model_name, model_dir, tokenizer_path,
  onnx_model_path, missing_artifacts, ensure_artifacts_present, prefixes_for_model,
  static_dim_for_model, max_seq_len_for_model,
}
use vektor.Embedder.Onnx.Restore.{embed-map}

abbrev two_texts : List Text
two_texts = codes "longer" ∷ codes "ab" ∷ []

short_first : length_sorted_order two_texts ≡ 1 ∷ 0 ∷ []
unfolding length_sorted_order text_len get range byte_len utf8_len sort_by insert_by
short_first = refl

embed-map_example :
    embed 0 (λ batch. ok (map length batch)) two_texts ≡ some (ok (map length two_texts))
embed-map_example = embed-map 0 length (λ batch. ok (map length batch)) (λ batch. refl) two_texts

abbrev cloud : BackendConfig
cloud = record { backend = codes "openai"; fallback_to_onnx = true }

fallback :
    build_embedder cloud (ok (codes "onnx")) (err (VektorError.config [])) ≡ ok (codes "onnx")
unfolding build_embedder text_eq
fallback = refl

abbrev prefixing : Embedder ℕ
prefixing = record {
  embed = λ texts. ok (map length texts);
  prefix_for_document = codes "d:";
  prefix_for_query = [];
}

prefixed : embed_documents prefixing (codes "ab" ∷ []) ≡ ok (4 ∷ [])
unfolding embed_documents with_prefix is_empty
prefixed = refl

query_bare : embed_query prefixing (codes "ab") ≡ ok 2
unfolding embed_query with_prefix is_empty last_vector
query_bare = refl

model_paths : model_dir (ok (codes "/d")) (codes "a/b") ≡ ok (codes "/d/models/a--b")
unfolding model_dir safe_model_name replace_by path_join
model_paths = refl

artifact_paths :
    onnx_model_path (codes "/m") ++ tokenizer_path (codes "/m")
    ≡ codes "/m/onnx/model.onnx/m/tokenizer.json"
unfolding onnx_model_path tokenizer_path path_join
artifact_paths = refl

present : ensure_artifacts_present (λ _. true) (codes "m") (codes "t") (codes "o") ≡ ok tt
unfolding ensure_artifacts_present missing_artifacts
present = refl

jina : (prefixes_for_model (codes "Jina")).1 ≡ codes "search_query: "
unfolding prefixes_for_model lower contains starts_with
jina = refl

bge : static_dim_for_model (codes "bge-small") ≡ some 384
unfolding static_dim_for_model lower contains starts_with
bge = refl

default_length : max_seq_len_for_model (codes "bge") ≡ 512
unfolding max_seq_len_for_model lower contains starts_with
default_length = refl
