-- ===== src/Chunker/Types.antt =====
-- The data of src/chunker/mod.rs.
use vektor.Common.{ℕ, Option}
use vektor.Common.Text.{Text, codes}

pub data Language : Type 0 where
  python typescript tsx javascript jsx rust go : Language

unfoldable pub as_str : Language → Text
as_str Language.python = codes "python"
as_str Language.typescript = codes "typescript"
as_str Language.tsx = codes "tsx"
as_str Language.javascript = codes "javascript"
as_str Language.jsx = codes "jsx"
as_str Language.rust = codes "rust"
as_str Language.go = codes "go"

pub record Chunk : Type 0 where
  pub id : Text
  pub content : Text
  pub content_hash : Text
  pub rel_path : Text
  pub start_line : ℕ
  pub end_line : ℕ
  pub symbol_name : Option Text
  pub symbol_type : Option Text
  pub language : Option Language
