-- ===== src/Shallow/Projected.antt =====
-- What src/shallow_indexer.rs keeps of a file.
use vektor.Common.{ap, ℕ, suc, ◌+◌, ◌≤◌, true, List, [], ◌∷◌, length, ◌≡◌, refl, arith}
use vektor.Common.Text.{Text}
use vektor.Shallow.{is_selected, selected_lines}

-- A file of at most fifty lines is kept whole.
pub selected_lines_of_length-le :
    (total index : ℕ) (lines : List Text)
    → index + length lines ≡ total
    → total ≤ 50
    → selected_lines total index lines ≡ lines
unfolding selected_lines is_selected
selected_lines_of_length-le total index [] count short = refl
selected_lines_of_length-le total index (l ∷ lines) count short =
    let kept : is_selected total index l ≡ true = ground arith in
    rw kept (
      ap (λ t. l ∷ t)
        (selected_lines_of_length-le total (suc index) lines (omega (arith, count)) short))
