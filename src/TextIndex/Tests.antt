-- ===== src/TextIndex/Tests.antt =====
-- A run of src/text_index.rs, where the engine is the list of the chunks that it was given.
use vektor.Common.{true, false, none, List, [], ◌∷◌, ◌++◌, ◌≡◌, refl}
use vektor.Common.Text.{Text, codes}
use vektor.Common.Outcome.{ok, err, VektorError}
use vektor.Common.Action.{pure, ◌>>=◌, after, for_each}
use vektor.Chunker.Types.{Chunk, as_str}
use vektor.TextIndex.{
  Tantivy, TextIndex, to_u64, language_name, symbol_or_empty, writer_mut, add_chunk,
  add_chunks_with_depth, delete_by_file, mark_searchable, mark_text_ready, commit_with_ready_marker,
  text_index_writer, shallow_writer,
}

abbrev engine : Tantivy (List Text)
engine = record {
  add_document = λ doc log. (ok tt, log ++ (doc.chunk_id ∷ doc.index_depth ∷ []));
  delete_term = λ _ log. log;
  commit = pure tt;
  reload = pure tt;
  write_marker = λ _. pure tt;
}

abbrev fresh : TextIndex (List Text)
fresh = record { engine = []; with_writer = true; ready_marker = false; searchable_marker = false }

abbrev piece : Chunk
piece = record {
  id = codes "c";
  content = codes "x";
  content_hash = codes "h";
  rel_path = codes "a.rs";
  start_line = 1;
  end_line = 1;
  symbol_name = none;
  symbol_type = none;
  language = none;
}

added :
    ((text_index_writer engine).add_chunks (piece ∷ []) fresh).1.engine
    ≡ codes "c" ∷ codes "deep" ∷ []
unfolding text_index_writer add_chunks_with_depth add_chunk to_u64 writer_mut language_name
    symbol_or_empty as_str ◌>>=◌ after for_each
added = refl

partial_commit :
    (commit_with_ready_marker engine false fresh).1 ≡ record fresh { searchable_marker = true }
unfolding commit_with_ready_marker mark_searchable mark_text_ready writer_mut ◌>>=◌ after
partial_commit = refl

read_only :
    (delete_by_file engine (codes "a") (record fresh { with_writer = false })).0
    ≡ err (VektorError.storage (codes "Tantivy text index was opened read-only"))
unfolding delete_by_file writer_mut ◌>>=◌ after
read_only = refl

shallow_added :
    ((shallow_writer engine).add_shallow_chunks (piece ∷ []) fresh).1.engine
    ≡ codes "c" ∷ codes "shallow" ∷ []
unfolding shallow_writer add_chunks_with_depth add_chunk to_u64 writer_mut language_name
    symbol_or_empty as_str ◌>>=◌ after for_each
shallow_added = refl
