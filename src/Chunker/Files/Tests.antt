-- ===== src/Chunker/Files/Tests.antt =====
-- Runs of src/chunker/mod.rs.
use vektor.Common.{true, false, some, none, [], ◌∷◌, map, ◌≡◌, refl}
use vektor.Common.Text.{
  codes, text_eq, lower, decimal, decimal_go, text_lines, push_head, member, trim, trim_both,
  trim_start, is_whitespace, is_empty,
}
use vektor.Common.Sort.{sort_by, insert_by}
use vektor.Common.FilePath.{extension, file_name, normalized_path}
use vektor.Common.Outcome.{ok}
use vektor.Chunker.Types.{Chunk, Language}
use vektor.Chunker.Ast.{
  AstConfig, Node, Nodes, extract_chunks_ast, collect_chunks, is_chunk_node,
  should_decompose_container, emit_node_chunks, node_chunk, symbol_name, nonempty_trimmed,
}
use vektor.Chunker.Files.{
  language_of, detect_language, id_key, assign_chunk_ids, tree_chunks, chunk_file,
}

abbrev piece : Chunk
piece = record {
  id = [];
  content = codes "x";
  content_hash = codes "h";
  rel_path = codes "a.rs";
  start_line = 1;
  end_line = 1;
  symbol_name = none;
  symbol_type = none;
  language = some Language.rust;
}

rust_file : detect_language (codes "src/a.RS") ≡ some Language.rust
unfolding detect_language language_of extension file_name text_eq lower
rust_file = refl

abbrev config : AstConfig
config = record { chunk_max_lines = 120; chunk_overlap_pct = 20 }

abbrev function : Node
function =
    Node.node
      (record {
        kind = codes "function_item";
        is_named = true;
        start_row = 0;
        text = codes "fn f() {}";
        name_field = some (codes "f");
      })
      Nodes.nil

-- A tree with an error is not used.
broken_tree :
    tree_chunks
      (λ s. s)
      config
      (codes "a.rs")
      Language.rust
      (piece ∷ [])
      (ok (record { has_error = true; root_node = function }))
    ≡ piece ∷ []
unfolding tree_chunks
broken_tree = refl

keys :
    map
      (λ (c : Chunk). c.id)
      (assign_chunk_ids (λ s. s) 0 (piece ∷ record piece { symbol_name = some (codes "f") } ∷ []))
    ≡ codes "a.rs:chunk_0:h" ∷ codes "a.rs:f:h" ∷ []
unfolding assign_chunk_ids id_key decimal decimal_go
keys = refl

syntax_chunks :
    map
      (λ (c : Chunk). c.id)
      (chunk_file
        (λ s. s)
        (λ content l. ok (record { has_error = false; root_node = function }))
        config
        40
        (codes "a.rs")
        [])
    ≡ codes "a.rs:f:fn f() {}" ∷ []
unfolding chunk_file detect_language language_of extension file_name text_eq lower tree_chunks
    assign_chunk_ids id_key decimal decimal_go extract_chunks_ast collect_chunks is_chunk_node
    should_decompose_container emit_node_chunks node_chunk symbol_name nonempty_trimmed sort_by
    insert_by member text_lines push_head is_empty trim trim_both trim_start is_whitespace
    normalized_path
syntax_chunks = refl
