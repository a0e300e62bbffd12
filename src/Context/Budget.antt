-- ===== src/Context/Budget.antt =====
-- src/context/budget.rs: the heuristic and the exact token counts.
mod Tests
use vektor.Common.{ℕ, List, ◌∷◌, [], ◌++◌, map, length, if◌then◌else◌}
use vektor.Common.Text.{Text, codes, text_eq, lower, trim, is_empty, byte_len, member}
use vektor.Common.Float.{FloatOps}
use vektor.Common.Outcome.{Result, ok, err, VektorError}

-- What `tiktoken_rs::cl100k_base` gives once and for all: an encoder, or the text of its error.
pub data Bpe : Type 0 where
  failed : Text → Bpe
  ready : (Text → List ℕ) → Bpe

module _ (D : Type 0) ⦃d : FloatOps D⦄ where
  pub ratio_for : Text → D
  unfolding lower trim member
  ratio_for language =
      let name = lower (trim language) in
      if member name (map codes ("python" ∷ "javascript" ∷ "typescript" ∷ "jsx" ∷ "tsx" ∷ []))
      then d.literal 35 10
      else if member name (map codes ("rust" ∷ "go" ∷ "java" ∷ []))
      then d.literal 42 10
      else if member name (map codes ("markdown" ∷ "md" ∷ "rst" ∷ []))
      then d.literal 48 10
      else d.literal 38 10

  pub estimate : Text → Text → ℕ
  estimate text language =
      if is_empty text
      then 0
      else d.ceil (d.div (d.from_usize (byte_len text)) (ratio_for language))

unfoldable pub count_exact : Bpe → Text → Result ℕ
count_exact (failed error) text =
    err (VektorError.embedding (codes "failed to initialize cl100k_base encoder: " ++ error))
count_exact (ready encode_ordinary) text = ok (length (encode_ordinary text))
