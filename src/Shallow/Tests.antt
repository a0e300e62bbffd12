-- ===== src/Shallow/Tests.antt =====
-- A run of src/shallow_indexer.rs, where the index is the list of the texts that it holds.
use vektor.Common.{true, List, [], ◌∷◌, ◌++◌, map, ◌≡◌, refl}
use vektor.Common.Text.{
  Text, codes, text_eq, text_lines, push_head, starts_with, trim_start, is_whitespace, lower,
}
use vektor.Common.FilePath.{extension, file_name}
use vektor.Common.Outcome.{ok, err, VektorError}
use vektor.Common.Action.{pure, ◌>>=◌, after, match_result}
use vektor.Chunker.Types.{Chunk}
use vektor.Chunker.Files.{detect_language, language_of}
use vektor.Indexing.{IndexFile}
use vektor.Shallow.{
  ShallowWriter, is_declaration_line, is_selected, selected_lines, push_lines, shallow_projection,
  shallow_chunk, build_files, build,
}

abbrev writer : ShallowWriter (List Text)
writer = record {
  delete_by_file = λ _. pure tt;
  add_shallow_chunks = λ chunks index. (ok tt, index ++ map (λ (c : Chunk). c.content) chunks);
  commit_with_ready_marker = λ _. pure tt;
}

abbrev file : Text → IndexFile
file name = record { path = name; rel_path = name }

projected :
    (build (λ s. s) (λ _. ok (codes "fn f")) writer (file (codes "a.rs") ∷ []) []).1
    ≡ codes "path: a.rs\nfn f\n" ∷ []
unfolding build build_files shallow_chunk shallow_projection push_lines selected_lines is_selected
    text_lines push_head starts_with detect_language language_of extension file_name text_eq lower
    ◌>>=◌ after match_result
projected = refl

-- A file that cannot be read is counted.
unreadable :
    (build (λ s. s) (λ _. err (VektorError.io [])) writer (file (codes "a.rs") ∷ []) []).0
    ≡ ok (record { files = 1; docs = 0; failed = 1 })
unfolding build build_files ◌>>=◌ after match_result
unreadable = refl

declaration : is_declaration_line (codes "  pub fn f") ≡ true
unfolding is_declaration_line trim_start is_whitespace starts_with
declaration = refl

abbrev three_lines : List Text
three_lines = codes "//" ∷ codes "fn f() {" ∷ codes "}" ∷ []
