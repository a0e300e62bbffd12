-- ===== src/Chunker/Sliding/Tests.antt =====
-- Runs of src/chunker/sliding.rs.
use vektor.Common.{max, [], ◌∷◌, map, ◌≡◌, refl, none, All, length}
use vektor.Common.Text.{codes, rsplit_once, lower, to_ascii_lowercase, member, text_eq, text_lines}
use vektor.Chunker.Sliding.{ranges, windows, window_settings, is_doc_path, extract_chunks_sliding}
use vektor.Chunker.Sliding.Tiling.{IsTiling, IsSlice, range_of, extract_chunks_sliding-IsTiling}

hundred_lines : ranges (codes "src/generated.unknown") 40 100 ≡ (0, 80) ∷ (60, 100) ∷ []
unfolding ranges windows window_settings is_doc_path rsplit_once lower to_ascii_lowercase member
    text_eq
hundred_lines = refl

seventy_lines : ranges (codes "README.md") 40 70 ≡ (0, 40) ∷ (24, 64) ∷ (48, 70) ∷ []
unfolding ranges windows window_settings is_doc_path rsplit_once lower to_ascii_lowercase member
    text_eq
seventy_lines = refl

extract_chunks_sliding-IsTiling_example :
    let chunks = extract_chunks_sliding (λ s. s) (codes "one\ntwo\n") (codes "notes.txt") none 40 in
    IsTiling
      (length (text_lines (codes "one\ntwo\n")))
      (max (window_settings (codes "notes.txt") 40).0 1)
      0
      (map range_of chunks)
    × All (IsSlice (text_lines (codes "one\ntwo\n"))) chunks
extract_chunks_sliding-IsTiling_example =
    extract_chunks_sliding-IsTiling (λ s. s) (codes "one\ntwo\n") (codes "notes.txt") none 40
