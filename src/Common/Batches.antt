-- ===== src/Common/Batches.antt =====
-- `slice::chunks`: consecutive parts of a list of at most a given length.
use Prim.Native.Nat.{ℕ, zero, suc}
use mathlib.Core.List.{List, [], ◌∷◌}
use vektor.Common.Lists.{length, take, drop}

module _ {A : Type 0} where
  -- One round for each element is more than there are parts of at least one element.
  unfoldable pub chunks_go : ℕ → ℕ → List A → List (List A)
  chunks_go zero size xs = []
  chunks_go (suc fuel) size [] = []
  chunks_go (suc fuel) size (x ∷ xs) = take size (x ∷ xs) ∷ chunks_go fuel size (drop size (x ∷ xs))

  unfoldable pub chunks : ℕ → List A → List (List A)
  unfolding chunks_go
  chunks size xs = chunks_go (length xs) size xs
