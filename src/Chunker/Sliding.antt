-- ===== src/Chunker/Sliding.antt =====
-- src/chunker/sliding.rs: overlapping windows of lines. `hash_content` is a parameter.
pub mod Tiling
mod Tests
use vektor.Common.{
  ℕ, zero, suc, ◌+◌, ◌-◌, ◌*◌, ◌/◌, min, max, Bool, true, false, Option, some, none, List, [], ◌∷◌,
  ◌++◌, map, length, take, ltb, drop, ◌==◌, if◌then◌else◌,
}
use vektor.Common.Text.{Text, codes, join, text_lines, lower, rsplit_once, member}
use vektor.Chunker.Types.{Chunk, Language}

abbrev pub code_window_lines : ℕ
code_window_lines = 80

abbrev pub code_overlap_pct : ℕ
code_overlap_pct = 25

abbrev pub doc_overlap_pct : ℕ
doc_overlap_pct = 40

pub is_doc_path : Text → Bool
unfolding rsplit_once lower member
is_doc_path rel_path = elim (rsplit_once b'.' rel_path) [
  | none ↦ false
  | some (before, extension) ↦ member (lower extension) (map codes ("md" ∷ "txt" ∷ "rst" ∷ []))
]

-- The window and the overlap in percent; `doc_chunk_max_lines` is a setting.
pub window_settings : Text → ℕ → ℕ × ℕ
unfolding is_doc_path
window_settings rel_path doc_chunk_max_lines =
    if is_doc_path rel_path
    then (doc_chunk_max_lines, doc_overlap_pct)
    else (code_window_lines, code_overlap_pct)

abbrev pub overlap_of : ℕ → ℕ → ℕ
overlap_of window_lines overlap_pct = min (window_lines * overlap_pct / 100) (window_lines - 1)

abbrev pub step_of : ℕ → ℕ → ℕ
step_of window_lines overlap_pct = max (window_lines - overlap_of window_lines overlap_pct) 1

-- The ranges `start .. end` of the loop, on fuel.
unfoldable pub windows : (fuel total window_lines step start : ℕ) → List (ℕ × ℕ)
windows zero total window_lines step start = []
windows (suc fuel) total window_lines step start =
    let end = min (start + window_lines) total in
    let rest = windows fuel total window_lines step (start + step) in
    if ltb start total then (start, end) ∷ (if end == total then [] else rest) else []

pub chunk_of : (Text → Text) → List Text → Text → Option Language → ℕ × ℕ → Chunk
chunk_of hash_content lines rel_path language range =
    let content = join (codes "\n") (take (range.1 - range.0) (drop range.0 lines)) in
    record {
      id = [];
      content = content;
      content_hash = hash_content content;
      rel_path = rel_path;
      start_line = range.0 + 1;
      end_line = range.1;
      symbol_name = none;
      symbol_type = none;
      language = language;
    }

-- The ranges that the loop visits; each round moves on, so `total` rounds are enough.
pub ranges : Text → ℕ → ℕ → List (ℕ × ℕ)
ranges rel_path doc_chunk_max_lines total =
    let (window, overlap_pct) = window_settings rel_path doc_chunk_max_lines in
    let window_lines = max window 1 in
    windows total total window_lines (step_of window_lines overlap_pct) 0

pub extract_chunks_sliding : (Text → Text) → Text → Text → Option Language → ℕ → List Chunk
extract_chunks_sliding hash_content content rel_path language doc_chunk_max_lines =
    let lines = text_lines content in
    map (chunk_of hash_content lines rel_path language)
      (ranges rel_path doc_chunk_max_lines (length lines))
