-- ===== src/Indexing/Secrecy.antt =====
-- What an index run may learn of a file that is skipped as a secret (src/cli.rs).
use vektor.Common.{Bool, true, List, [], ◌∷◌, ◌≡◌, ◌⊎◌, refl, inl, inr, All}
use vektor.Common.Text.{Text}
use vektor.Common.Int.{ℤ}
use vektor.Common.Outcome.{Result}
use vektor.Common.Action.{for_each}
use vektor.FileState.{HashStore, Host}
use vektor.Indexing.{
  IndexFile, IndexRunOptions, EmbedderSource, Files, VectorWriter, TextIndexWriter,
}
use vektor.Indexing.Collect.{queue_file, process_file, check_file, collect_file, collect_files}
use vektor.Indexing.Run.{index_files, index_path_with_embedder_source}

-- The same detector and chunker over other files.
abbrev pub with_contents : Files → (Text → Result Text) → (Text → Result Text) → (Text → ℤ) → Files
with_contents files hash_file read_file_lossy file_mtime_secs = record files {
  hash_file = hash_file;
  read_file_lossy = read_file_lossy;
  file_mtime_secs = file_mtime_secs;
}

module _ (files : Files) (hash_file : Text → Result Text) (read_file_lossy : Text → Result Text)
    (file_mtime_secs : Text → ℤ) where
  -- A file is a secret, or the same on both sides.
  abbrev pub AgreesOn : IndexFile → Type 0
  AgreesOn file =
      (files.should_skip_file file.rel_path ≡ true)
      ⊎ ((files.hash_file file.path ≡ hash_file file.path)
          × (files.read_file_lossy file.path ≡ read_file_lossy file.path)
          × (files.file_mtime_secs file.path ≡ file_mtime_secs file.path))

  abbrev others : Files
  others = with_contents files hash_file read_file_lossy file_mtime_secs

  module _ {E S T : Type 0} (host : Host) where
    collect_file-agrees :
        (force : Bool) (file : IndexFile)
        → AgreesOn file
        → collect_file files {E = E} {S = S} {T = T} host force file
          ≡ collect_file others host force file
    unfolding collect_file check_file process_file queue_file
    collect_file-agrees force file (inl skipped) = rw skipped refl
    collect_file-agrees force file (inr (same_hash, same_content, same_time)) =
        rw (same_hash, same_content, same_time) refl

    for_each-agrees :
        (force : Bool) (list : List IndexFile)
        → All AgreesOn list
        → collect_files files {E = E} {S = S} {T = T} host force list
          ≡ collect_files others host force list
    unfolding collect_files for_each
    for_each-agrees force [] h = refl
    for_each-agrees force (file ∷ list) h =
        rw (collect_file-agrees force file h.0, for_each-agrees force list h.1) refl

    -- The hash, the content and the time of a file that is skipped as a secret have no influence on
    -- an index run: two runs over files that differ only there end in the same result and state.
    pub index_path-secret :
        (vectors : VectorWriter E S) (texts : TextIndexWriter T) (now_secs : ℤ)
        (list : List IndexFile) (embedder : EmbedderSource E) (options : IndexRunOptions)
        (hash_store : HashStore) (store : S) (text_index : T)
        → All AgreesOn list
        → index_path_with_embedder_source host files vectors texts now_secs list embedder options
            hash_store store text_index
          ≡ index_path_with_embedder_source host
              (with_contents files hash_file read_file_lossy file_mtime_secs)
              vectors
              texts
              now_secs
              list
              embedder
              options
              hash_store
              store
              text_index
    unfolding index_path_with_embedder_source index_files
    index_path-secret vectors texts now_secs list embedder options hash_store store text_index h =
        rw (for_each-agrees options.force list h) refl
