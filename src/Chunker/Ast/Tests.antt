-- ===== src/Chunker/Ast/Tests.antt =====
-- Runs of src/chunker/ast.rs.
use vektor.Common.{All, ◌≤◌, ℕ, max, length, true, some, none, [], ◌∷◌, map, ◌≡◌, refl}
use vektor.Common.Sort.{sort_by, insert_by}
use vektor.Common.Text.{
  Text, codes, text_eq, text_lines, push_head, member, trim, trim_both, trim_start, is_whitespace,
  is_empty, join,
}
use vektor.Chunker.Types.{Chunk, Language}
use vektor.Chunker.Sliding.{windows}
use vektor.Chunker.Sliding.Tiling.{IsTiling}
use vektor.Chunker.Ast.Emitted.{range_in, emit_node_chunks-IsTiling}
use vektor.Chunker.Ast.{
  AstConfig, NodeInfo, Node, Nodes, is_chunk_node, should_decompose_container, nonempty_trimmed,
  symbol_name, node_chunk, window_text, window_chunks, emit_node_chunks, collect_chunks,
  extract_chunks_ast,
}

abbrev config : AstConfig
config = record { chunk_max_lines = 2; chunk_overlap_pct = 0 }

abbrev method_info : NodeInfo
method_info = record {
  kind = codes "function_item";
  is_named = true;
  start_row = 1;
  text = codes "fn f() {\n 1\n}";
  name_field = some (codes "f");
}

abbrev method : Node
method = Node.node method_info Nodes.nil

abbrev impl_block : Node
impl_block =
    Node.node
      (record {
        kind = codes "impl_item";
        is_named = true;
        start_row = 0;
        text = codes "impl A {\nfn f() {\n 1\n}\n}";
        name_field = none;
      })
      (Nodes.cons method Nodes.nil)

-- The methods of a block stand for it, and a long one is cut into windows.
methods :
    map {B = ℕ × ℕ × Text}
      (λ (c : Chunk). (c.start_line, c.end_line, c.content))
      (extract_chunks_ast (λ s. s) (codes "a.rs") Language.rust config impl_block)
    ≡ (2, 3, codes "fn f() {\n 1") ∷ (4, 4, codes "fn f() {\n 1\n}\n}") ∷ []
unfolding extract_chunks_ast collect_chunks is_chunk_node should_decompose_container
    emit_node_chunks window_chunks window_text node_chunk symbol_name nonempty_trimmed windows
    sort_by insert_by text_eq member text_lines push_head join is_empty trim trim_both trim_start
    is_whitespace
methods = refl

emit_node_chunks-IsTiling_example :
    let chunks =
      emit_node_chunks (λ s. s) (codes "a.rs") Language.rust config method_info Nodes.nil in
    All (λ (c : Chunk). 2 ≤ c.start_line) chunks
    × IsTiling
        (length (text_lines method_info.text))
        (max config.chunk_max_lines 1)
        0
        (map (range_in 1) chunks)
emit_node_chunks-IsTiling_example =
    emit_node_chunks-IsTiling (λ s. s) (codes "a.rs") Language.rust config method_info Nodes.nil
