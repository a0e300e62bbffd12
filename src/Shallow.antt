-- ===== src/Shallow.antt =====
-- src/shallow_indexer.rs: the fast index of the lines that declare something.
pub mod Projected
mod Tests
use vektor.Common.{
  ℕ, suc, ◌-◌, max, min, Bool, true, false, ◌||◌, some, none, List, [], ◌∷◌, ◌++◌, any, length,
  if◌then◌else◌, ltb, leb,
}
use vektor.Common.Text.{Text, codes, text_lines, trim_start, is_whitespace, starts_with}
use vektor.Common.Outcome.{Result, ok, err}
use vektor.Common.Action.{Action, pure, ◌>>=◌, ◌>>◌, match_result}
use vektor.Chunker.Types.{Chunk}
use vektor.Chunker.Files.{detect_language}
use vektor.Indexing.{IndexFile}

abbrev pub head_lines : ℕ
head_lines = 50

abbrev pub tail_lines : ℕ
tail_lines = 20

pub record ShallowStats : Type 0 where
  pub files : ℕ
  pub docs : ℕ
  pub failed : ℕ

abbrev pub declaration_prefixes : List Text
declaration_prefixes =
    codes "async fn "
    ∷ codes "class "
    ∷ codes "const "
    ∷ codes "def "
    ∷ codes "enum "
    ∷ codes "export "
    ∷ codes "fn "
    ∷ codes "func "
    ∷ codes "impl "
    ∷ codes "interface "
    ∷ codes "private "
    ∷ codes "protected "
    ∷ codes "pub async fn "
    ∷ codes "pub const "
    ∷ codes "pub enum "
    ∷ codes "pub fn "
    ∷ codes "pub struct "
    ∷ codes "pub trait "
    ∷ codes "public "
    ∷ codes "struct "
    ∷ codes "trait "
    ∷ codes "type "
    ∷ []

unfoldable pub is_declaration_line : Text → Bool
is_declaration_line line =
    any (λ prefix. starts_with (trim_start is_whitespace line) prefix) declaration_prefixes

-- Whether the line at an index is in the set that the three loops fill.
unfoldable pub is_selected : ℕ → ℕ → Text → Bool
is_selected total index line =
    ltb index (min total head_lines) || leb (total - tail_lines) index || is_declaration_line line

-- The selected lines, in ascending order of their indexes, as a `BTreeSet` yields them.
unfoldable pub selected_lines : ℕ → ℕ → List Text → List Text
selected_lines total index [] = []
selected_lines total index (line ∷ lines) =
    let rest = selected_lines total (suc index) lines in
    if is_selected total index line then line ∷ rest else rest

unfoldable pub push_lines : List Text → Text
push_lines [] = []
push_lines (line ∷ lines) = line ++ (b'\n' ∷ push_lines lines)

unfoldable pub shallow_projection : Text → Text → Text
shallow_projection rel_path content =
    let lines = text_lines content in
    codes "path: " ++ (rel_path ++ (b'\n' ∷ push_lines (selected_lines (length lines) 0 lines)))

unfoldable pub shallow_chunk : (Text → Text) → Text → Text → Chunk
shallow_chunk hash_content rel_path content =
    let content_hash = hash_content content in
    record {
      id = hash_content (codes "shallow:" ++ (rel_path ++ (codes ":" ++ content_hash)));
      content = content;
      content_hash = content_hash;
      rel_path = rel_path;
      start_line = 1;
      end_line = max (length (text_lines content)) 1;
      symbol_name = none;
      symbol_type = none;
      language = detect_language rel_path;
    }

-- The calls of the text index that the build makes.
pub record ShallowWriter (T : Type 0) : Type 0 where
  pub delete_by_file : Text → Action T Unit
  pub add_shallow_chunks : List Chunk → Action T Unit
  pub commit_with_ready_marker : Bool → Action T Unit

module _ {T : Type 0} (hash_content : Text → Text) (read_file_lossy : Text → Result Text)
    (writer : ShallowWriter T) where
  -- The loop over the files, with the counts so far.
  unfoldable pub build_files : List IndexFile → ShallowStats → Action T ShallowStats
  build_files [] stats = pure stats
  build_files (file ∷ files) stats =
      match_result (read_file_lossy file.path)
        (λ content. do
          let chunk =
              shallow_chunk hash_content file.rel_path (shallow_projection file.rel_path content)
          writer.delete_by_file file.rel_path
          writer.add_shallow_chunks (chunk ∷ [])
          build_files files (record stats { files = suc stats.files; docs = suc stats.docs }))
        (λ e.
          build_files files (record stats { files = suc stats.files; failed = suc stats.failed }))

  -- `ShallowIndexer::build`, over the files that were collected.
  unfoldable pub build : List IndexFile → Action T ShallowStats
  build files = do
    stats ← build_files files (record { files = 0; docs = 0; failed = 0 })
    writer.commit_with_ready_marker false
    pure stats
