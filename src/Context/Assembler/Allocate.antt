-- ===== src/Context/Assembler/Allocate.antt =====
-- src/context/assembler.rs: which chunks fit the token budget, and how the last one is cut.
pub mod Cut
pub mod Files
pub mod State
pub mod Selects
pub mod Fits
use vektor.Common.{
  ℕ, zero, suc, ◌+◌, ◌-◌, ◌*◌, max, Bool, true, false, ◌&&◌, not, List, [], ◌∷◌, ◌++◌, map, take,
  length, ltb, leb, ◌==◌, if◌then◌else◌,
}
use vektor.Common.Text.{Text, codes, join, member, insert_text}
use vektor.Common.Float.{FloatOps}
use vektor.Common.Words.{saturating_add, saturating_mul, div_ceil}
use vektor.Common.Outcome.{Result, ok, err, ◌>>=◌}
use vektor.Context.Types.{AssemblyConfig, ContextChunk}
use vektor.Context.Budget.{Bpe, estimate, count_exact}

-- `while low < high`, with `high - low` rounds at hand; `fits` probes one length.
pub search_cut : (ℕ → Result Bool) → ℕ → ℕ → ℕ → Result ℕ
search_cut fits zero low high = ok low
search_cut fits (suc rounds) low high = elim (ltb low high) [
  | false ↦ ok low
  | true ↦
      let mid = div_ceil (low + high) 2 in
      fits mid >>= λ fit. elim fit [
        | true ↦ search_cut fits rounds mid high
        | false ↦ search_cut fits rounds low (mid - 1)
      ]
]

module _ {F : Type 0} where
  unfoldable pub package_text : List (ContextChunk F) → Text
  package_text chunks = join (10 ∷ []) (map (λ (c : ContextChunk F). c.content) chunks)

  -- The content of `chunks[last_index]`, the same with another content, and `chunks.pop()`.
  pub last_content : List (ContextChunk F) → Text
  last_content [] = []
  last_content (c ∷ []) = c.content
  last_content (c ∷ d ∷ cs) = last_content (d ∷ cs)

  pub set_last_content : Text → List (ContextChunk F) → List (ContextChunk F)
  set_last_content content [] = []
  set_last_content content (c ∷ []) = record c { content = content } ∷ []
  set_last_content content (c ∷ d ∷ cs) = c ∷ set_last_content content (d ∷ cs)

  pub pop_chunk : List (ContextChunk F) → List (ContextChunk F)
  pop_chunk [] = []
  pop_chunk (c ∷ []) = []
  pop_chunk (c ∷ d ∷ cs) = c ∷ pop_chunk (d ∷ cs)

  -- A chunk is full where its file is new and all the files are taken.
  pub file_is_over : ℕ → List Text → ContextChunk F → Bool
  file_is_over max_files files chunk =
      not (member chunk.rel_path files) && leb max_files (length files)

  pub tokens : Bpe → List (ContextChunk F) → Result ℕ
  tokens bpe chunks = count_exact bpe (package_text chunks)

  module _ (bpe : Bpe) (token_budget : ℕ) where
    -- Whether the chunks fit with the first `mid` characters of `original` in the last one.
    pub cut_fits : List (ContextChunk F) → Text → ℕ → Result Bool
    cut_fits chunks original mid =
        tokens bpe (set_last_content (take mid original) chunks) >>= λ total.
        ok (leb total token_budget)

    -- The body of `loop`, with the rounds that are left; none is used up before a `return`.
    pub truncate_loop : ℕ → List (ContextChunk F) → Result (List (ContextChunk F))
    truncate_loop zero chunks = ok chunks
    truncate_loop (suc rounds) chunks = tokens bpe chunks >>= λ total.
        elim (leb total token_budget) [
          | true ↦ ok chunks
          | false ↦ elim chunks [
            | [] ↦ ok []
            | c ∷ cs ↦
                let whole : List (ContextChunk F) = c ∷ cs in
                let original = last_content whole in
                let char_count = length original in
                let popped = truncate_loop rounds (pop_chunk whole) in
                let cut = search_cut (cut_fits whole original) char_count 0 char_count >>= λ low.
                elim low [
                  | zero ↦ truncate_loop rounds (pop_chunk whole)
                  | suc n ↦ truncate_loop rounds (set_last_content (take (suc n) original) whole)
                ] in
                if char_count == 0 then popped else cut
          ]
        ]

    -- Two rounds for each chunk, and one to return.
    pub truncate_to_budget : List (ContextChunk F) → Result (List (ContextChunk F))
    truncate_to_budget chunks = truncate_loop (2 * length chunks + 1) chunks

    -- The refill loop: `remaining` shrinks in each round.
    pub refill :
        ℕ
        → ℕ
        → List (ContextChunk F)
        → List Text
        → List (ContextChunk F)
        → ℕ
        → Result (List (ContextChunk F))
    refill floor max_files [] files selected exact = ok selected
    refill floor max_files (next ∷ remaining) files selected exact =
        let skipped = refill floor max_files remaining files selected exact in
        let candidate = selected ++ (next ∷ []) in
        let tried = tokens bpe candidate >>= λ candidate_exact.
        elim (ltb token_budget candidate_exact) [
          | true ↦ refill floor max_files remaining files selected exact
          | false ↦
              refill floor max_files remaining (insert_text next.rel_path files) candidate
                candidate_exact
        ] in
        if ltb exact floor
        then (if file_is_over max_files files next then skipped else tried)
        else ok selected

unfoldable pub heuristic_limit : ℕ → ℕ
heuristic_limit token_budget = max (div_ceil (saturating_mul token_budget 90) 100) 1

-- The variables of the first loop of `allocate_budget`.
pub record Selection (F : Type 0) : Type 0 where
  pub selected : List (ContextChunk F)
  pub remaining : List (ContextChunk F)
  pub estimate_used : ℕ
  pub files : List Text

module _ {F : Type 0} (D : Type 0) ⦃d : FloatOps D⦄ where
  -- One round of the `for` loop.
  pub select_chunk : ℕ → ℕ → Selection F → ContextChunk F → Selection F
  select_chunk heuristic_limit max_files st chunk =
      let kept_back : Selection F = record st { remaining = st.remaining ++ (chunk ∷ []) } in
      let cost = estimate D chunk.content chunk.language in
      let used = saturating_add st.estimate_used cost in
      if file_is_over max_files st.files chunk
      then kept_back
      else if ltb 0 (length st.selected) && ltb heuristic_limit used
      then kept_back
      else record st {
        selected = st.selected ++ (chunk ∷ []);
        estimate_used = used;
        files = insert_text chunk.rel_path st.files;
      }

  pub select_chunks : ℕ → ℕ → Selection F → List (ContextChunk F) → Selection F
  select_chunks heuristic_limit max_files st [] = st
  select_chunks heuristic_limit max_files st (chunk ∷ chunks) =
      select_chunks heuristic_limit max_files (select_chunk heuristic_limit max_files st chunk)
        chunks

  -- `if selected.is_empty() && !remaining.is_empty()`: the first chunk is taken all the same.
  pub force_first : Selection F → Selection F
  force_first st = elim st.selected [
    | _ ∷ _ ↦ st
    | [] ↦ elim st.remaining [
      | [] ↦ st
      | first ∷ rest ↦ record st {
        selected = first ∷ [];
        remaining = rest;
        files = insert_text first.rel_path st.files;
      }
    ]
  ]

  pub first_selection : AssemblyConfig F → List (ContextChunk F) → Selection F
  first_selection config chunks = force_first (
      select_chunks (heuristic_limit config.token_budget) config.max_files
        (record { selected = []; remaining = []; estimate_used = 0; files = [] }) chunks)

  pub allocate_budget :
      Bpe → List (ContextChunk F) → AssemblyConfig F → Result (List (ContextChunk F))
  allocate_budget bpe [] config = ok []
  allocate_budget bpe (c ∷ cs) config =
      let st = first_selection config (c ∷ cs) in
      let refill_floor = div_ceil (saturating_mul config.token_budget 95) 100 in
      let allocated = tokens bpe st.selected >>= λ exact.
      refill bpe config.token_budget refill_floor config.max_files st.remaining st.files st.selected
        exact
      >>= λ selected. truncate_to_budget bpe config.token_budget selected in
      if config.token_budget == 0 then ok [] else allocated
