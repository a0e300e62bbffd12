-- ===== src/Embedder/Onnx/Restore.antt =====
-- That src/embedder/onnx.rs gives the vectors in the order of the texts.
use vektor.Common.{
  ℕ, zero, suc, ◌+◌, ◌≤◌, ◌<◌, Option, some, none, List, [], ◌∷◌, map, length, ◌≡◌, ◌≢◌, refl, ap,
  sym, ◌∙◌, subst, arith, inl, inr, ◌⊎◌, All, Any, length-map, map-append, length-drop_le,
  take-drop, take, drop, Option-cases,
}
use vektor.Common.Text.{Text}
use vektor.Common.Sort.{All-sort_by, Any-sort_by, length-sort_by}
use vektor.Common.Batches.{chunks, chunks_go}
use vektor.Common.Outcome.{Result, ok}
use vektor.Embedder.Onnx.{
  range, get, set, pick, place, replicate, restore_input_order, length_sorted_order, embed_batches,
  embed, max_batch_size,
}

eq_or_ne : (m n : ℕ) → (m ≡ n) ⊎ (m ≢ n)
eq_or_ne m n = ground arith

le_ne : (m n : ℕ) → m ≤ n → n ≢ m → suc m ≤ n
le_ne m n h k = ground arith

module _ {A : Type 0} where
  length-replicate : (n : ℕ) (v : A) → length (replicate n v) ≡ n
  unfolding replicate
  length-replicate zero v = refl
  length-replicate (suc n) v = ap suc (length-replicate n v)

  -- A write into a list: what it gives, and what is read back.
  set-get :
      (xs : List A) (slot : ℕ) (v : A)
      → slot < length xs
      → (ys : List A) × (set xs slot v ≡ some ys) × (length ys ≡ length xs) × (get ys slot ≡ some v)
  unfolding set get
  set-get [] slot v h = absurd (omega (arith, h))
  set-get (x ∷ xs) zero v h = (v ∷ xs, refl, refl, refl)
  set-get (x ∷ xs) (suc slot) v h =
      let (ys, done, same, back) = set-get xs slot v (omega (arith, h)) in
      (x ∷ ys, rw done refl, ap suc same, back)

  get-set_other :
      (xs ys : List A) (slot i : ℕ) (v : A)
      → set xs slot v ≡ some ys
      → i ≢ slot
      → get ys i ≡ get xs i
  unfolding set get
  get-set_other [] ys slot i v h n = cc
  get-set_other (x ∷ xs) ys zero zero v h n = absurd (n refl)
  get-set_other (x ∷ xs) ys zero (suc i) v h n = ground arith
  get-set_other (x ∷ xs) ys (suc slot) zero v h n = ground arith
  get-set_other (x ∷ xs) ys (suc slot) (suc i) v h n = elim (Option-cases (set xs slot v)) [
    | inl fails ↦ ground arith
    | inr (zs, done) ↦
        let whole : x ∷ zs ≡ ys = ground arith in
        rw (← whole) (get-set_other xs zs slot i v done (λ e. n (ap suc e)))
  ]

  -- A read within bounds succeeds.
  get_within : (xs : List A) (i : ℕ) → i < length xs → (v : A) × (get xs i ≡ some v)
  unfolding get
  get_within [] i h = absurd (omega (arith, h))
  get_within (x ∷ xs) zero h = (x, refl)
  get_within (x ∷ xs) (suc i) h = get_within xs i (omega (arith, h))

  list_ext :
      (xs ys : List A)
      → length xs ≡ length ys
      → ((i : ℕ) → i < length ys → get xs i ≡ get ys i)
      → xs ≡ ys
  unfolding get
  list_ext [] [] e h = refl
  list_ext [] (y ∷ ys) e h = absurd (omega (arith, e))
  list_ext (x ∷ xs) [] e h = absurd (omega (arith, e))
  list_ext (x ∷ xs) (y ∷ ys) e h =
      let first : some x ≡ some y = h 0 (omega arith) in
      let rest : xs ≡ ys =
        list_ext xs ys (omega (arith, e)) (λ i below. h (suc i) (omega (arith, below))) in
      ground arith

module _ {V : Type 0} (empty : V) (goal : List V) where
  -- The vector that belongs at a position.
  at : ℕ → V
  at i = elim (get goal i) [ none ↦ empty | some v ↦ v ]

  default_some :
      (o : Option V) {v : V} → o ≡ some v → o ≡ some (elim o [ none ↦ empty | some w ↦ w ])
  default_some none e = cc
  default_some (some w) e = refl

  get-at : (i : ℕ) → i < length goal → get goal i ≡ some (at i)
  unfolding at
  get-at i h = default_some (get goal i) (get_within goal i h).1

  place-at :
      (order : List ℕ) (out : List V)
      → All (λ slot. slot < length out) order
      → (last : List V) × (place order (map at order) out ≡ some last)
        × (length last ≡ length out)
        × ((i : ℕ) → Any (λ j. i ≡ j) order ⊎ (get out i ≡ some (at i)) → get last i ≡ some (at i))
  unfolding place
  place-at [] out h =
      (out, refl, refl, λ i k. elim k [ inl none_ ↦ elim none_ [ ] | inr set_ ↦ set_ ])
  place-at (slot ∷ order) out h =
      let (next, done, same, back) = set-get out slot (at slot) h.0 in
      let fits : All (λ j. j < length next) order =
        subst (λ n. All (λ j. j < n) order) (sym same) h.1 in
      let (last, placed, size, final) = place-at order next fits in
      (
        last,
        rw (place, done) placed,
        size ∙ same,
        λ i k. elim (eq_or_ne i slot) [
          | inl e ↦ final i (inr (rw e back))
          | inr n ↦ elim k [
            | inl (inl e) ↦ absurd (n e)
            | inl (inr later) ↦ final i (inl later)
            | inr set_ ↦ final i (inr (get-set_other out next slot i (at slot) done n ∙ set_))
          ]
        ],
      )

  -- Writing the vectors of all positions, in any order, gives the list of them.
  restore-right :
      (order : List ℕ)
      → All (λ slot. slot < length goal) order
      → length order ≡ length goal
      → ((i : ℕ) → i < length goal → Any (λ j. i ≡ j) order)
      → restore_input_order empty order (map at order) ≡ some goal
  unfolding restore_input_order
  restore-right order within count complete =
      let start = replicate (length (map at order)) empty in
      let size : length start ≡ length goal =
        length-replicate (length (map at order)) empty ∙ (length-map order at ∙ count) in
      let fits : All (λ j. j < length start) order =
        subst (λ n. All (λ j. j < n) order) (sym size) within in
      let (last, placed, same, final) = place-at order start fits in
      let whole : last ≡ goal =
        list_ext last goal (same ∙ size) (λ i h. final i (inl (complete i h)) ∙ sym (get-at i h)) in
      placed ∙ ap some whole

length-range : (start count : ℕ) → length (range start count) ≡ count
unfolding range
length-range start zero = refl
length-range start (suc count) = ap suc (length-range (suc start) count)

All-range :
    (start count bound : ℕ) → start + count ≤ bound → All (λ i. i < bound) (range start count)
unfolding range
All-range start zero bound h = tt
All-range start (suc count) bound h =
    (omega (arith, h), All-range (suc start) count bound (omega (arith, h)))

Any-range :
    (start count i : ℕ) → start ≤ i → i < start + count → Any (λ j. i ≡ j) (range start count)
unfolding range
Any-range start zero i from to = absurd (omega (arith, from, to))
Any-range start (suc count) i from to = elim (eq_or_ne i start) [
  | inl e ↦ inl e
  | inr n ↦ inr (Any-range (suc start) count i (le_ne start i from n) (omega (arith, to)))
]

module _ (texts : List Text) where
  order_within : All (λ i. i < length texts) (length_sorted_order texts)
  unfolding length_sorted_order
  order_within =
      All-sort_by _ (λ i. i < length texts) (range 0 (length texts))
        (All-range 0 (length texts) (length texts) (omega arith))

  order_length : length (length_sorted_order texts) ≡ length texts
  unfolding length_sorted_order
  order_length = length-sort_by _ (range 0 (length texts)) ∙ length-range 0 (length texts)

  order_complete : (i : ℕ) → i < length texts → Any (λ j. i ≡ j) (length_sorted_order texts)
  unfolding length_sorted_order
  order_complete i h =
      Any-sort_by _ (λ j. i ≡ j) (range 0 (length texts))
        (Any-range 0 (length texts) i (omega arith) (omega (arith, h)))

module _ {V : Type 0} (empty : V) (f : Text → V) where
  get-map :
      (texts : List Text) (i : ℕ) (text : Text)
      → get texts i ≡ some text
      → get (map f texts) i ≡ some (f text)
  unfolding get
  get-map [] i text e = cc
  get-map (t ∷ texts) zero text e = ground arith
  get-map (t ∷ texts) (suc i) text e = get-map texts i text e

  at-map :
      (texts : List Text) (i : ℕ) (text : Text)
      → get texts i ≡ some text
      → f text ≡ at empty (map f texts) i
  unfolding at
  at-map texts i text e = rw (at, get-map texts i text e) refl

  pick-right :
      (texts : List Text) (order : List ℕ)
      → All (λ i. i < length texts) order
      → (picked : List Text) × (pick texts order ≡ some picked)
        × (map f picked ≡ map (at empty (map f texts)) order)
  unfolding pick
  pick-right texts [] h = ([], refl, refl)
  pick-right texts (i ∷ order) h =
      let (text, found) = get_within texts i h.0 in
      let (picked, done, same) = pick-right texts order h.1 in
      let here : f text ≡ at empty (map f texts) i = at-map texts i text found in
      (
        text ∷ picked,
        rw (pick, found, done) refl,
        ap (λ v. v ∷ map f picked) here ∙ ap (λ l. at empty (map f texts) i ∷ l) same,
      )

  module _ (embed_batch : List Text → Result (List V))
      (embeds : (batch : List Text) → embed_batch batch ≡ ok (map f batch)) where
    no_batches : (fuel m : ℕ) → embed_batches embed_batch (chunks_go fuel (suc m) []) ≡ ok []
    unfolding embed_batches chunks_go
    no_batches zero m = refl
    no_batches (suc fuel) m = refl

    embed_batches-right :
        (fuel m : ℕ) (texts : List Text)
        → length texts ≤ fuel
        → embed_batches embed_batch (chunks_go fuel (suc m) texts) ≡ ok (map f texts)
    unfolding embed_batches chunks_go
    embed_batches-right fuel m [] h = no_batches fuel m
    embed_batches-right zero m (x ∷ xs) h = absurd (omega (arith, h))
    embed_batches-right (suc fuel) m (x ∷ xs) h =
        let later =
          embed_batches-right fuel m (drop m xs) (omega (arith, h, length-drop_le m xs)) in
        rw (embeds (x ∷ take m xs), later)
          (ap (λ l. ok (f x ∷ l))
            (sym (map-append f (take m xs) (drop m xs)) ∙ ap (map f) (take-drop m xs)))

    -- Where every batch is embedded text by text, the backend gives the vector of each text at the
    -- position of that text, although it embeds them in the order of their lengths; it does not panic.
    pub embed-map : (texts : List Text) → embed empty embed_batch texts ≡ some (ok (map f texts))
    unfolding embed chunks
    embed-map [] = refl
    embed-map (text ∷ texts) =
        let all_texts : List Text = text ∷ texts in
        let goal : List V = map f all_texts in
        let order = length_sorted_order all_texts in
        let size : length goal ≡ length all_texts = length-map all_texts f in
        let (picked, done, same) = pick-right all_texts order (order_within all_texts) in
        let batches : embed_batches embed_batch (chunks max_batch_size picked) ≡ ok (map f picked) =
          embed_batches-right (length picked) 31 picked (omega arith) in
        let restored =
          restore-right empty goal order
            (subst (λ n. All (λ i. i < n) order) (sym size) (order_within all_texts))
            (order_length all_texts ∙ sym size)
            (λ i h. order_complete all_texts i (subst (λ n. i < n) size h)) in
        rw (embed, done, batches, same, restored) refl
