-- ===== src/Embedder.antt =====
-- src/embedder/mod.rs: the interface of a backend, its prefixes, and the choice of a backend.
-- `V` stands for a vector.
pub mod OpenAi
pub mod Onnx
pub mod Backend
mod Tests
use vektor.Common.{Bool, Option, some, none, List, [], ◌∷◌, ◌++◌, map, if◌then◌else◌, true, false}
use vektor.Common.Text.{Text, codes, text_eq, is_empty}
use vektor.Common.Outcome.{Result, ok, err, ◌>>=◌, VektorError}

-- The trait, without the name and the dimension.
pub record Embedder (V : Type 0) : Type 0 where
  pub embed : List Text → Result (List V)
  pub prefix_for_document : Text
  pub prefix_for_query : Text

unfoldable pub with_prefix : Text → Text → Text
with_prefix prefix text = if is_empty prefix then text else prefix ++ text

-- `results.pop()`
unfoldable pub last_vector : {V : Type 0} → List V → Option V
last_vector [] = none
last_vector (v ∷ []) = some v
last_vector (v ∷ w ∷ vs) = last_vector (w ∷ vs)

module _ {V : Type 0} (embedder : Embedder V) where
  unfoldable pub embed_documents : List Text → Result (List V)
  embed_documents texts = embedder.embed (map (with_prefix embedder.prefix_for_document) texts)

  unfoldable pub embed_query : Text → Result V
  embed_query query =
      embedder.embed (with_prefix embedder.prefix_for_query query ∷ []) >>= λ results.
      elim (last_vector results) [
        | none ↦ err (VektorError.embedding (codes "embedder returned no vector for query"))
        | some v ↦ ok v
      ]

-- The parts of the configuration that choose a backend; `onnx` and `openai` are the outcomes of the
-- constructors of the two backends.
pub record BackendConfig : Type 0 where
  pub backend : Text
  pub fallback_to_onnx : Bool

unfoldable pub build_embedder : {B : Type 0} → BackendConfig → Result B → Result B → Result B
build_embedder config onnx openai =
    if text_eq config.backend (codes "onnx")
    then onnx
    else if text_eq config.backend (codes "openai")
    then elim openai [
      | ok embedder ↦ ok embedder
      | err openai_err ↦ if config.fallback_to_onnx then onnx else err openai_err
    ]
    else if text_eq config.backend (codes "ollama")
    then err (
        VektorError.config (
          codes "the Ollama embedding backend is deferred (not yet implemented); "
          ++ codes "set backend = \"onnx\" for local inference or backend = \"openai\" "
          ++ codes "for a cloud-compatible endpoint"))
    else err (
        VektorError.config (
          codes "unsupported embedding backend: \""
          ++ config.backend
          ++ codes "\"; supported values are \"onnx\" and \"openai\""))
