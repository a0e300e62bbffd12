-- ===== src/Chunker/Ast.antt =====
-- src/chunker/ast.rs: the chunks of a syntax tree. A tree of tree-sitter is what the calls of
-- `Node` tell of it; parsing is a parameter of the clients.
pub mod Emitted
mod Tests
use vektor.Common.{
  ℕ, suc, ◌+◌, ◌-◌, ◌*◌, ◌/◌, min, max, ◌==◌, Ordering, compare, Bool, true, false, ◌&&◌, ◌||◌,
  Option, some, none, List, [], ◌∷◌, ◌++◌, map, length, take, drop, leb, if◌then◌else◌, any,
}
use vektor.Common.Sort.{sort_by, then_with}
use vektor.Common.Text.{Text, codes, join, text_lines, text_eq, member, trim, is_empty}
use vektor.Chunker.Types.{Chunk, Language}
use vektor.Chunker.Sliding.{windows, overlap_of, step_of}

-- The settings of the index that the chunks of a tree depend on.
pub record AstConfig : Type 0 where
  pub chunk_max_lines : ℕ
  pub chunk_overlap_pct : ℕ

-- What a node tells of itself: `text` is the content between its bytes, `start_row` counts from 0,
-- and `name_field` is the text of its child of the field `name`.
pub record NodeInfo : Type 0 where
  pub kind : Text
  pub is_named : Bool
  pub start_row : ℕ
  pub text : Text
  pub name_field : Option Text

mutual
  pub data Node : Type 0 where
    node : NodeInfo → Nodes → Node

  pub data Nodes : Type 0 where
    nil : Nodes
    cons : Node → Nodes → Nodes

abbrev pub info : Node → NodeInfo
info (Node.node i children) = i

unfoldable pub is_chunk_node : Text → Language → Bool
is_chunk_node kind Language.python =
    member kind (codes "function_definition" ∷ codes "class_definition" ∷ [])
is_chunk_node kind Language.rust =
    member kind (codes "function_item" ∷ codes "impl_item" ∷ codes "struct_item" ∷ [])
is_chunk_node kind Language.go =
    member kind (codes "function_declaration" ∷ codes "method_declaration" ∷ [])
is_chunk_node kind l =
    member kind
      (codes "function_declaration" ∷ codes "method_definition" ∷ codes "class_declaration" ∷ [])

unfoldable pub should_decompose_container : Text → Language → Bool
should_decompose_container kind Language.python = text_eq kind (codes "class_definition")
should_decompose_container kind Language.rust = text_eq kind (codes "impl_item")
should_decompose_container kind Language.go = false
should_decompose_container kind l = text_eq kind (codes "class_declaration")

-- The text of the first named child of one of the kinds.
unfoldable pub first_named_child : List Text → Nodes → Option Text
first_named_child kinds Nodes.nil = none
first_named_child kinds (Nodes.cons child children) =
    let rest = first_named_child kinds children in
    let i = info child in if i.is_named && member i.kind kinds then some i.text else rest

unfoldable pub nonempty_trimmed : Text → Option Text
nonempty_trimmed name = if is_empty (trim name) then none else some (trim name)

unfoldable pub symbol_name : NodeInfo → Nodes → Option Text
symbol_name i children = elim (i.name_field) [
  | some name ↦ nonempty_trimmed name
  | none ↦
      elim (first_named_child
        (codes "identifier" ∷ codes "property_identifier" ∷ codes "type_identifier" ∷ [])
        children) [ some name ↦ nonempty_trimmed name | none ↦ none ]
]

-- The text of a window; each but the first, which begins at line 0, follows the header.
unfoldable pub window_text : List Text → ℕ × ℕ → Text
window_text lines range =
    let header = join (codes "\n") (take (min (length lines) 5) lines) in
    let content = join (codes "\n") (take (range.1 - range.0) (drop range.0 lines)) in
    if range.0 == 0 || is_empty header then content else header ++ (b'\n' ∷ content)

module _ (hash_content : Text → Text) (rel_path : Text) (language : Language) where
  -- `Chunk::new`, with the symbol of a node.
  unfoldable pub node_chunk : Text → ℕ → ℕ → Option Text → Text → Chunk
  node_chunk content start_line end_line symbol kind = record {
    id = [];
    content = content;
    content_hash = hash_content content;
    rel_path = rel_path;
    start_line = start_line;
    end_line = end_line;
    symbol_name = symbol;
    symbol_type = some kind;
    language = some language;
  }

  module _ (config : AstConfig) where
    -- The windows of a node that is longer than `max_lines`.
    unfoldable pub window_chunks : ℕ → NodeInfo → Option Text → List Text → List Chunk
    window_chunks max_lines i symbol lines =
        let step = step_of max_lines config.chunk_overlap_pct in
        map
          (λ range.
            node_chunk (window_text lines range) (i.start_row + 1 + range.0) (i.start_row + range.1)
              symbol i.kind)
          (windows (length lines) (length lines) max_lines step 0)

    unfoldable pub emit_node_chunks : NodeInfo → Nodes → List Chunk
    emit_node_chunks i children =
        let lines = text_lines i.text in
        let max_lines = max config.chunk_max_lines 1 in
        let symbol = symbol_name i children in
        if length lines == 0
        then []
        else if leb (length lines) max_lines
        then node_chunk i.text (i.start_row + 1) (i.start_row + length lines) symbol i.kind ∷ []
        else window_chunks max_lines i symbol lines

    unfoldable mutual
      pub collect_chunks : Node → List Chunk
      collect_chunks (Node.node i children) =
          let below = collect_child_chunks children in
          let own = emit_node_chunks i children in
          if is_chunk_node i.kind language
          then if should_decompose_container i.kind language
            then elim below [ [] ↦ own | first ∷ rest ↦ first ∷ rest ]
            else own
          else below

      pub collect_child_chunks : Nodes → List Chunk
      collect_child_chunks Nodes.nil = []
      collect_child_chunks (Nodes.cons child children) =
          let here = collect_chunks child in
          let rest = collect_child_chunks children in
          if (info child).is_named then here ++ rest else rest

    abbrev by_lines : Chunk → Chunk → Ordering
    by_lines c d = then_with (compare c.start_line d.start_line) (compare c.end_line d.end_line)

    unfoldable pub extract_chunks_ast : Node → List Chunk
    extract_chunks_ast root = sort_by by_lines (collect_chunks root)
