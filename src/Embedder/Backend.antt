-- ===== src/Embedder/Backend.antt =====
-- Which backend src/embedder/mod.rs chooses.
use vektor.Common.{true, ◌≡◌, arith, ◌⊎◌}
use vektor.Common.Text.{codes, text_eq→eq}
use vektor.Common.Outcome.{Result, ok}
use vektor.Embedder.{BackendConfig, build_embedder}

module _ {B : Type 0} where
  -- Where a backend is built, it is the ONNX one, chosen by its name or as the fallback of a failed
  -- OpenAI backend that the configuration allows, or the OpenAI one, chosen by its name.
  pub build_embedder-built :
      (config : BackendConfig) (onnx openai : Result B) (built : B)
      → build_embedder config onnx openai ≡ ok built
      → ((onnx ≡ ok built) × (config.backend ≡ codes "onnx"))
        ⊎ ((config.backend ≡ codes "openai")
            × ((openai ≡ ok built) ⊎ ((onnx ≡ ok built) × (config.fallback_to_onnx ≡ true))))
  unfolding build_embedder
  build_embedder-built config onnx openai built h =
      ground (
        arith,
        text_eq→eq config.backend (codes "onnx"),
        text_eq→eq config.backend (codes "openai"),
      )
