-- ===== src/TextIndex.antt =====
-- src/text_index.rs: the batches of the keyword index and its two marker files. Tantivy, with the
-- writing of a file, is a parameter with a state `T`.
pub mod Markers
mod Tests
use vektor.Common.{
  ℕ, suc, ◌^◌, Bool, true, false, Option, some, none, List, [], ◌∷◌, ◌++◌, if◌then◌else◌, ltb,
}
use vektor.Common.Text.{Text, codes, decimal}
use vektor.Common.Outcome.{Result, ok, err, VektorError}
use vektor.Common.Action.{Action, pure, lift, modify, ◌>>=◌, ◌>>◌, for_each}
use vektor.Chunker.Types.{Chunk, Language, as_str}
use vektor.Indexing.{TextIndexWriter}
use vektor.Shallow.{ShallowWriter}

abbrev pub deep_index_depth : Text
deep_index_depth = codes "deep"

abbrev pub shallow_index_depth : Text
shallow_index_depth = codes "shallow"

-- A document, with the fields of the schema.
pub record IndexDocument : Type 0 where
  pub chunk_id : Text
  pub rel_path : Text
  pub content : Text
  pub symbol_name : Text
  pub language : Text
  pub start_line : ℕ
  pub end_line : ℕ
  pub index_depth : Text

-- The calls of tantivy and of the file system; the errors carry their texts.
pub record Tantivy (T : Type 0) : Type 0 where
  pub add_document : IndexDocument → Action T Unit
  pub delete_term : Text → T → T
  pub commit : Action T Unit
  pub reload : Action T Unit
  pub write_marker : Text → Action T Unit

-- The index, opened with a writer or read-only, and which markers exist.
pub record TextIndex (T : Type 0) : Type 0 where
  pub engine : T
  pub with_writer : Bool
  pub ready_marker : Bool
  pub searchable_marker : Bool

unfoldable pub to_u64 : Text → Text → ℕ → Result ℕ
to_u64 id field line =
    if ltb line (2 ^ 64)
    then ok line
    else err (
        VektorError.storage (
          codes "chunk "
          ++ id
          ++ codes " "
          ++ field
          ++ codes " "
          ++ decimal line
          ++ codes " does not fit in Tantivy u64 field"))

unfoldable pub language_name : Option Language → Text
language_name none = codes "unknown"
language_name (some l) = as_str l

unfoldable pub symbol_or_empty : Option Text → Text
symbol_or_empty none = []
symbol_or_empty (some name) = name

module _ {T : Type 0} (tantivy : Tantivy T) where
  abbrev on_engine : {A : Type 0} → Action T A → Action (TextIndex T) A
  on_engine call index =
      let (result, engine) = call index.engine in (result, record index { engine = engine })

  unfoldable pub writer_mut : Action (TextIndex T) Unit
  writer_mut index = (
    if index.with_writer
        then ok tt
        else err (VektorError.storage (codes "Tantivy text index was opened read-only")),
    index,
  )

  unfoldable pub add_chunk : Text → Chunk → Action (TextIndex T) Unit
  add_chunk index_depth chunk = do
    start_line ← lift (to_u64 chunk.id (codes "start_line") chunk.start_line)
    end_line ← lift (to_u64 chunk.id (codes "end_line") chunk.end_line)
    writer_mut
    on_engine (
        tantivy.add_document (record {
          chunk_id = chunk.id;
          rel_path = chunk.rel_path;
          content = chunk.content;
          symbol_name = symbol_or_empty chunk.symbol_name;
          language = language_name chunk.language;
          start_line = start_line;
          end_line = end_line;
          index_depth = index_depth;
        }))

  unfoldable pub add_chunks_with_depth : Text → List Chunk → Action (TextIndex T) Unit
  add_chunks_with_depth index_depth = for_each (add_chunk index_depth)

  unfoldable pub delete_by_file : Text → Action (TextIndex T) Unit
  delete_by_file rel_path = do
    writer_mut
    modify λ index. record index { engine = tantivy.delete_term rel_path index.engine }

  unfoldable pub mark_searchable : Action (TextIndex T) Unit
  mark_searchable = do
    on_engine (tantivy.write_marker (codes "vektor_text_index_searchable"))
    modify λ index. record index { searchable_marker = true }

  unfoldable pub mark_text_ready : Action (TextIndex T) Unit
  mark_text_ready = do
    on_engine (tantivy.write_marker (codes "vektor_text_index_ready"))
    modify λ index. record index { ready_marker = true }

  unfoldable pub commit_with_ready_marker : Bool → Action (TextIndex T) Unit
  commit_with_ready_marker mark_ready = do
    writer_mut
    on_engine tantivy.commit
    on_engine tantivy.reload
    mark_searchable
    if mark_ready then mark_text_ready else pure tt

  -- The writer that an index run takes.
  unfoldable pub text_index_writer : TextIndexWriter (TextIndex T)
  text_index_writer = record {
    delete_by_file = delete_by_file;
    add_chunks = add_chunks_with_depth deep_index_depth;
    commit = commit_with_ready_marker;
  }

  -- The writer that the shallow build takes.
  unfoldable pub shallow_writer : ShallowWriter (TextIndex T)
  shallow_writer = record {
    delete_by_file = delete_by_file;
    add_shallow_chunks = add_chunks_with_depth shallow_index_depth;
    commit_with_ready_marker = commit_with_ready_marker;
  }
