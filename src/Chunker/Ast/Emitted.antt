-- ===== src/Chunker/Ast/Emitted.antt =====
-- How the chunks that src/chunker/ast.rs cuts a node into lie over its lines.
use vektor.Common.{
  ℕ, ◌+◌, ◌-◌, ◌≤◌, max, All, Option, List, [], ◌∷◌, map, length, ◌==◌, leb, ◌≡◌, refl, arith,
  Bool-cases, inl, inr, ==_iff, sym,
}
use vektor.Common.Text.{Text, text_lines}
use vektor.Chunker.Types.{Chunk, Language}
use vektor.Chunker.Sliding.{windows, step_of}
use vektor.Chunker.Sliding.Tiling.{IsTiling, windows-IsTiling}
use vektor.Chunker.Ast.{
  AstConfig, NodeInfo, Nodes, node_chunk, window_text, window_chunks, emit_node_chunks, symbol_name,
}

-- A chunk's lines from 0, as a range of the lines of a node that starts at a row.
abbrev pub range_in : ℕ → Chunk → ℕ × ℕ
range_in row c = (c.start_line - 1 - row, c.end_line - row)

module _ (hash : Text → Text) (rel_path : Text) (language : Language) (config : AstConfig)
    (i : NodeInfo) where
  window_range :
      (symbol : Option Text) (content : Text) (r : ℕ × ℕ)
      → range_in i.start_row (
          node_chunk hash rel_path language content
            (i.start_row + 1 + r.0)
            (i.start_row + r.1)
            symbol
            i.kind)
        ≡ r
  unfolding node_chunk
  window_range symbol content (a, b) =
      let e : i.start_row + 1 + a - 1 - i.start_row ≡ a = omega arith in
      let f : i.start_row + b - i.start_row ≡ b = omega arith in rw (e, f) refl

  window_ranges :
      (symbol : Option Text) (lines : List Text) (rs : List (ℕ × ℕ))
      → map (range_in i.start_row) (
          map
            (λ range.
              node_chunk hash rel_path language
                (window_text lines range)
                (i.start_row + 1 + range.0)
                (i.start_row + range.1)
                symbol
                i.kind)
            rs)
        ≡ rs
  window_ranges symbol lines [] = refl
  window_ranges symbol lines (r ∷ rs) =
      rw (window_range symbol (window_text lines r) r, window_ranges symbol lines rs) refl

  window_chunks-start :
      (symbol : Option Text) (lines : List Text) (rs : List (ℕ × ℕ))
      → All
          (λ (c : Chunk). i.start_row + 1 ≤ c.start_line)
          (map
            (λ range.
              node_chunk hash rel_path language
                (window_text lines range)
                (i.start_row + 1 + range.0)
                (i.start_row + range.1)
                symbol
                i.kind)
            rs)
  unfolding node_chunk
  window_chunks-start symbol lines [] = tt
  window_chunks-start symbol lines (r ∷ rs) = (omega arith, window_chunks-start symbol lines rs)

  -- The chunks of a node tile its lines: none starts before its first line, the first starts there,
  -- they leave no gap and end at its last line, and none is longer than the limit, or one line if
  -- that is 0.
  pub emit_node_chunks-IsTiling :
      (children : Nodes)
      → let chunks = emit_node_chunks hash rel_path language config i children in
        All (λ (c : Chunk). i.start_row + 1 ≤ c.start_line) chunks
        × IsTiling
            (length (text_lines i.text))
            (max config.chunk_max_lines 1)
            0
            (map (range_in i.start_row) chunks)
  unfolding emit_node_chunks window_chunks node_chunk
  emit_node_chunks-IsTiling children =
      let n = length (text_lines i.text) in
      let w = max config.chunk_max_lines 1 in
      let rs = windows n n w (step_of w config.chunk_overlap_pct) 0 in
      let symbol = symbol_name i children in
      elim (Bool-cases (n == 0)) [
        | inl e ↦ rw e (tt, sym ((==_iff n 0).0 e))
        | inr e ↦ elim (Bool-cases (leb n w)) [
          | inl short ↦
              let start : i.start_row + 1 - 1 - i.start_row ≡ 0 = omega arith in
              let end : i.start_row + n - i.start_row ≡ n = omega arith in
              rw (e, short, start, end)
                ((omega arith, tt), (omega arith, ground arith, ground arith, refl))
          | inr long ↦
              rw (e, long, window_ranges symbol (text_lines i.text) rs)
                (
                  window_chunks-start symbol (text_lines i.text) rs,
                  windows-IsTiling n n w (step_of w config.chunk_overlap_pct) 0 0 (omega arith)
                      (omega arith) (omega arith) (omega arith) (ground arith),
                )
        ]
      ]
