-- ===== src/Chunker/Files.antt =====
-- src/chunker/mod.rs: the chunks of a file, by its syntax tree or by sliding windows. The parser is a
-- parameter, and so is the content hash.
mod Tests
use vektor.Common.{
  ℕ, suc, Bool, true, false, Option, some, none, List, [], ◌∷◌, ◌++◌, if◌then◌else◌,
}
use vektor.Common.Text.{Text, codes, text_eq, lower, decimal}
use vektor.Common.FilePath.{extension, normalized_path}
use vektor.Common.Outcome.{Result, ok, err}
use vektor.Chunker.Types.{Chunk, Language}
use vektor.Chunker.Ast.{AstConfig, Node, extract_chunks_ast}
use vektor.Chunker.Sliding.{extract_chunks_sliding}

-- The outcome of a parse that succeeds.
pub record ParsedTree : Type 0 where
  pub has_error : Bool
  pub root_node : Node

unfoldable pub language_of : Text → Option Language
language_of ext =
    if text_eq ext (codes "py")
    then some Language.python
    else if text_eq ext (codes "ts")
    then some Language.typescript
    else if text_eq ext (codes "tsx")
    then some Language.tsx
    else if text_eq ext (codes "js")
    then some Language.javascript
    else if text_eq ext (codes "jsx")
    then some Language.jsx
    else if text_eq ext (codes "rs")
    then some Language.rust
    else if text_eq ext (codes "go")
    then some Language.go
    else none

unfoldable pub detect_language : Text → Option Language
detect_language path = elim (extension path) [ none ↦ none | some ext ↦ language_of (lower ext) ]

module _ (hash_content : Text → Text) where
  -- The text that the id of a chunk is the hash of.
  unfoldable pub id_key : ℕ → Chunk → Text
  id_key index chunk = elim (chunk.symbol_name) [
    | some symbol_name ↦
        chunk.rel_path ++ (codes ":" ++ (symbol_name ++ (codes ":" ++ chunk.content_hash)))
    | none ↦
        chunk.rel_path ++ (codes ":chunk_" ++ (decimal index ++ (codes ":" ++ chunk.content_hash)))
  ]

  unfoldable pub assign_chunk_ids : ℕ → List Chunk → List Chunk
  assign_chunk_ids index [] = []
  assign_chunk_ids index (chunk ∷ chunks) =
      record chunk { id = hash_content (id_key index chunk) } ∷ assign_chunk_ids (suc index) chunks

  -- The chunks of a tree, or `windows` where it has an error or no chunks.
  unfoldable pub tree_chunks :
      AstConfig → Text → Language → List Chunk → Result ParsedTree → List Chunk
  tree_chunks config rel_path language windows (err e) = windows
  tree_chunks config rel_path language windows (ok tree) =
      let ast_chunks = extract_chunks_ast hash_content rel_path language config tree.root_node in
      if tree.has_error
      then windows
      else elim ast_chunks [ [] ↦ windows | first ∷ rest ↦ first ∷ rest ]

  unfoldable pub chunk_file :
      (Text → Language → Result ParsedTree) → AstConfig → ℕ → Text → Text → List Chunk
  chunk_file parse_ast config doc_chunk_max_lines path content =
      let rel_path = normalized_path path in
      let language = detect_language path in
      let windows =
        extract_chunks_sliding hash_content content rel_path language doc_chunk_max_lines in
      assign_chunk_ids 0 (elim language [
        | none ↦ windows
        | some l ↦ tree_chunks config rel_path l windows (parse_ast content l)
      ])
