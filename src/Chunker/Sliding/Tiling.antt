-- ===== src/Chunker/Sliding/Tiling.antt =====
-- How the windows of src/chunker/sliding.rs lie over the lines of a file.
use vektor.Common.{
  ℕ, zero, suc, ◌+◌, ◌-◌, ◌≤◌, ◌<◌, min, max, Option, List, [], ◌∷◌, map, length, take, drop, ◌==◌,
  ◌≡◌, refl, arith, All, All-map, All-always, Bool-cases, inl, inr, lt→ltb, ==_iff,
}
use vektor.Common.Text.{Text, codes, join, text_lines}
use vektor.Chunker.Types.{Chunk, Language}
use vektor.Chunker.Sliding.{
  windows, window_settings, step_of, ranges, chunk_of, extract_chunks_sliding,
}

-- Once `covered` lines are reached, each range starts within them, goes on beyond them, and has at
-- most `window` lines; the last one ends with the file.
abbrev pub IsTiling : (total window covered : ℕ) → List (ℕ × ℕ) → Type 0
IsTiling total window covered [] = covered ≡ total
IsTiling total window covered (r ∷ rs) =
    (r.0 ≤ covered) × (covered < r.1) × (r.1 ≤ r.0 + window) × IsTiling total window r.1 rs

-- The windows of a loop whose step is between one and the window.
pub windows-IsTiling :
    (fuel total w step start covered : ℕ)
    → 1 ≤ step
    → step ≤ w
    → total ≤ start + fuel
    → start ≤ covered
    → covered < min (start + w) total
    → IsTiling total w covered (windows fuel total w step start)
unfolding windows
windows-IsTiling zero total w step start covered p q enough h k = absurd (omega arith)
windows-IsTiling (suc fuel) total w step start covered p q enough h k =
    elim (Bool-cases (min (start + w) total == total)) [
      | inl e ↦
          rw (lt→ltb start total (omega arith), e)
            (h, k, omega arith, (==_iff (min (start + w) total) total).0 e)
      | inr e ↦
          let more : min (start + w) total < total = ground arith in
          rw (lt→ltb start total (omega arith), e)
            (
              h,
              k,
              omega arith,
              windows-IsTiling fuel total w step (start + step) (min (start + w) total) p q
                  (omega arith) (omega arith) (omega arith),
            )
    ]

-- The ranges of lines of a file of `total` lines tile it: they start at its first line, leave no
-- gap, end at its last line, and none is longer than the window.
ranges-IsTiling :
    (rel_path : Text) (doc_chunk_max_lines total : ℕ)
    → IsTiling total
        (max (window_settings rel_path doc_chunk_max_lines).0 1)
        0
        (ranges rel_path doc_chunk_max_lines total)
unfolding ranges windows
ranges-IsTiling rel_path lines zero = refl
ranges-IsTiling rel_path lines (suc n) =
    let (window, pct) = window_settings rel_path lines in
    let w = max window 1 in
    windows-IsTiling (suc n) (suc n) w (step_of w pct) 0 0 (omega arith) (omega arith) (omega arith)
      (omega arith) (omega arith)

-- A chunk's lines from 0, as a range.
abbrev pub range_of : Chunk → ℕ × ℕ
range_of c = (c.start_line - 1, c.end_line)

-- The content of a chunk is the lines that it names, joined.
abbrev pub IsSlice : List Text → Chunk → Type 0
IsSlice lines c =
    (1 ≤ c.start_line)
    × (c.content
        ≡ join (codes "\n")
            (take (c.end_line - (c.start_line - 1)) (drop (c.start_line - 1) lines)))

module _ (hash : Text → Text) (lines : List Text) (rel_path : Text)
    (language : Option Language) where
  chunk_range : (r : ℕ × ℕ) → range_of (chunk_of hash lines rel_path language r) ≡ r
  unfolding chunk_of
  chunk_range (a, b) = let e : a + 1 - 1 ≡ a = omega arith in rw e refl

  chunk_ranges :
      (rs : List (ℕ × ℕ)) → map range_of (map (chunk_of hash lines rel_path language) rs) ≡ rs
  chunk_ranges [] = refl
  chunk_ranges (r ∷ rs) = rw (chunk_range r, chunk_ranges rs) refl

  chunk-IsSlice : (r : ℕ × ℕ) → IsSlice lines (chunk_of hash lines rel_path language r)
  unfolding chunk_of
  chunk-IsSlice (a, b) = (omega arith, let e : a + 1 - 1 ≡ a = omega arith in rw e refl)

-- The chunks of a file tile its lines, and each holds the text of the lines that it names.
pub extract_chunks_sliding-IsTiling :
    (hash : Text → Text) (content rel_path : Text) (language : Option Language)
    (doc_chunk_max_lines : ℕ)
    → let chunks = extract_chunks_sliding hash content rel_path language doc_chunk_max_lines in
      IsTiling
        (length (text_lines content))
        (max (window_settings rel_path doc_chunk_max_lines).0 1)
        0
        (map range_of chunks)
      × All (IsSlice (text_lines content)) chunks
unfolding extract_chunks_sliding
extract_chunks_sliding-IsTiling hash content rel_path language n =
    let lines = text_lines content in
    let rs = ranges rel_path n (length lines) in
    (
      rw (chunk_ranges hash lines rel_path language rs) (ranges-IsTiling rel_path n (length lines)),
      All-map (IsSlice lines) (chunk_of hash lines rel_path language) rs (
          All-always (λ r. IsSlice lines (chunk_of hash lines rel_path language r))
            (chunk-IsSlice hash lines rel_path language) rs),
    )
