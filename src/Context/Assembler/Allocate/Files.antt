-- ===== src/Context/Assembler/Allocate/Files.antt =====
-- The files of the chunks that `allocate_budget` of src/context/assembler.rs selects.
use vektor.Common.{
  ℕ, ◌+◌, ◌≤◌, true, false, List, [], ◌∷◌, ◌++◌, map, ◌≡◌, refl, ap, ◌∙◌, sym, length, arith,
  length-append, All, All-append,
}
use vektor.Common.Text.{Text, member, insert_text, dedup_texts}
use vektor.Context.Types.{ContextChunk}
use vektor.Context.Assembler.Allocate.{file_is_over}
use vektor.Context.Assembler.Allocate.Cut.{IsCut}

length-insert_text : (s : Text) (ts : List Text) → length ts ≤ length (insert_text s ts)
unfolding insert_text
length-insert_text s ts = ground (arith, length-append ts (s ∷ []))

length-insert_text_le : (s : Text) (ts : List Text) → length (insert_text s ts) ≤ length ts + 1
unfolding insert_text
length-insert_text_le s ts = ground (arith, length-append ts (s ∷ []))

length-insert_text-member :
    (s : Text) (ts : List Text) → member s ts ≡ true → length (insert_text s ts) ≡ length ts
unfolding insert_text
length-insert_text-member s ts h = ground arith

dedup_texts-snoc :
    (seen ts : List Text) (s : Text)
    → dedup_texts seen (ts ++ (s ∷ [])) ≡ insert_text s (dedup_texts seen ts)
unfolding dedup_texts
dedup_texts-snoc seen [] s = refl
dedup_texts-snoc seen (t ∷ ts) s = dedup_texts-snoc (insert_text t seen) ts s

length-dedup_texts : (seen ts : List Text) → length seen ≤ length (dedup_texts seen ts)
unfolding dedup_texts
length-dedup_texts seen [] = omega arith
length-dedup_texts seen (t ∷ ts) =
    omega (arith, length-insert_text t seen, length-dedup_texts (insert_text t seen) ts)

module _ {F : Type 0} where
  abbrev pub paths : List (ContextChunk F) → List Text
  paths = map (λ c. c.rel_path)

  -- The files of the chunks, each once.
  abbrev pub distinct_files : List (ContextChunk F) → List Text
  distinct_files chunks = dedup_texts [] (paths chunks)

  paths-snoc :
      (xs : List (ContextChunk F)) (x : ContextChunk F)
      → paths (xs ++ (x ∷ [])) ≡ paths xs ++ (x.rel_path ∷ [])
  paths-snoc [] x = refl
  paths-snoc (y ∷ xs) x = ap (◌∷◌ y.rel_path) (paths-snoc xs x)

  distinct_files-snoc :
      (xs : List (ContextChunk F)) (x : ContextChunk F)
      → distinct_files (xs ++ (x ∷ [])) ≡ insert_text x.rel_path (distinct_files xs)
  distinct_files-snoc xs x =
      ap (dedup_texts []) (paths-snoc xs x) ∙ dedup_texts-snoc [] (paths xs) x.rel_path

  -- A cut has no further files.
  cut_files :
      (seen : List Text) (xs ys : List (ContextChunk F))
      → IsCut xs ys
      → length (dedup_texts seen (paths ys)) ≤ length (dedup_texts seen (paths xs))
  unfolding dedup_texts
  cut_files seen xs [] h = length-dedup_texts seen (paths xs)
  cut_files seen [] (y ∷ ys) h = elim h [ ]
  cut_files seen (x ∷ xs) (y ∷ []) (k, e) =
      let same : y.rel_path ≡ x.rel_path = ap (λ (c : ContextChunk F). c.rel_path) e in
      rw same (length-dedup_texts (insert_text x.rel_path seen) (paths xs))
  cut_files seen (x ∷ xs) (y ∷ z ∷ ys) h =
      let same : y.rel_path ≡ x.rel_path = ap (λ (c : ContextChunk F). c.rel_path) h.0 in
      rw same (cut_files (insert_text x.rel_path seen) xs (z ∷ ys) h.1)

  pub distinct_files-cut :
      (xs ys : List (ContextChunk F))
      → IsCut xs ys
      → length (distinct_files ys) ≤ length (distinct_files xs)
  distinct_files-cut xs ys h = cut_files [] xs ys h

  -- A file that is not over the limit keeps the number of files under it.
  pub insert_below :
      (max_files bound : ℕ) (files : List Text) (chunk : ContextChunk F)
      → max_files ≤ bound
      → file_is_over max_files files chunk ≡ false
      → length files ≤ bound
      → length (insert_text chunk.rel_path files) ≤ bound
  unfolding file_is_over
  insert_below max_files bound files chunk b h k = ground (
    arith,
    length-insert_text-member chunk.rel_path files,
    length-insert_text_le chunk.rel_path files,
  )

module _ {F : Type 0} (P : ContextChunk F → Type 0) (bound : ℕ) where
  -- The variables of the loops: what is selected satisfies `P`, and `files` are its files.
  pub record IsSelection (selected : List (ContextChunk F)) (files : List Text) : Type 0 where
    pub chosen : All P selected
    pub known : files ≡ distinct_files selected
    pub few : length files ≤ bound

  pub IsSelection-snoc :
      (selected : List (ContextChunk F)) (files : List Text) (chunk : ContextChunk F)
      → IsSelection selected files
      → P chunk
      → length (insert_text chunk.rel_path files) ≤ bound
      → IsSelection (selected ++ (chunk ∷ [])) (insert_text chunk.rel_path files)
  IsSelection-snoc selected files chunk s h k = record {
    chosen = All-append P selected (chunk ∷ []) s.chosen (h, tt);
    known = ap (insert_text chunk.rel_path) s.known ∙ sym (distinct_files-snoc selected chunk);
    few = k;
  }
