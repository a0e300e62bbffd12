-- ===== src/Context/Assembler/Allocate/Cut.antt =====
-- The binary search of `truncate_to_budget` in src/context/assembler.rs, and what a cut of a list
-- of chunks is.
use vektor.Common.{
  All, ℕ, zero, suc, ◌+◌, ◌-◌, ◌≤◌, ◌<◌, min, Bool, true, false, List, [], ◌∷◌, ◌≡◌, refl, ap, ◌∙◌,
  sym, inl, inr, ◌⊎◌, Bool-cases, length, take, ltb, arith, take_of_length-le,
}
use vektor.Common.Text.{Text}
use vektor.Common.Outcome.{Result, ok}
use vektor.Common.Words.{div_ceil}
use vektor.Context.Types.{ContextChunk}
use vektor.Context.Assembler.Allocate.{search_cut, last_content, set_last_content, pop_chunk}

module _ (fits : ℕ → Result Bool) (p : ℕ → Bool) (probe : (m : ℕ) → fits m ≡ ok (p m)) (n : ℕ) where
  -- A length that passes the probe, or 0, beyond which one more does not pass.
  pub record IsLongest (r : ℕ) : Type 0 where
    pub bounded : r ≤ n
    pub passes : (r ≡ 0) ⊎ (p r ≡ true)
    pub maximal : (r ≡ n) ⊎ (p (r + 1) ≡ false)

  module _ (rounds low high : ℕ) where
    search_cut_stop : ltb low high ≡ false → search_cut fits (suc rounds) low high ≡ ok low
    unfolding search_cut
    search_cut_stop h = rw (h, search_cut)

    search_cut_up :
        ltb low high ≡ true
        → p (div_ceil (low + high) 2) ≡ true
        → search_cut fits (suc rounds) low high
          ≡ search_cut fits rounds (div_ceil (low + high) 2) high
    unfolding search_cut
    search_cut_up h k = rw (h, search_cut) (rw (probe (div_ceil (low + high) 2)) (rw k refl))

    search_cut_down :
        ltb low high ≡ true
        → p (div_ceil (low + high) 2) ≡ false
        → search_cut fits (suc rounds) low high
          ≡ search_cut fits rounds low (div_ceil (low + high) 2 - 1)
    unfolding search_cut
    search_cut_down h k = rw (h, search_cut) (rw (probe (div_ceil (low + high) 2)) (rw k refl))

  search_cut-from :
      (rounds low high : ℕ)
      → high - low ≤ rounds
      → low ≤ high
      → high ≤ n
      → (low ≡ 0) ⊎ (p low ≡ true)
      → (high ≡ n) ⊎ (p (high + 1) ≡ false)
      → (r : ℕ) × (search_cut fits rounds low high ≡ ok r) × IsLongest r
  unfolding search_cut
  search_cut-from zero low high a b c d e =
      let same : low ≡ high = omega arith in
      (low, refl, record { bounded = omega arith; passes = d; maximal = rw same e })
  search_cut-from (suc rounds) low high a b c d e = elim (Bool-cases (ltb low high)) [
    | inr stop ↦
        let same : low ≡ high = ground arith in
        (
          low,
          search_cut_stop rounds low high stop,
          record { bounded = omega arith; passes = d; maximal = rw same e },
        )
    | inl go ↦
        let mid = div_ceil (low + high) 2 in
        let above : low < mid = ground arith in
        let below : mid ≤ high = ground arith in
        elim (Bool-cases (p mid)) [
          | inl fit ↦
              let (r, found, longest) =
                search_cut-from rounds mid high (omega arith) below c (inr fit) e in
              (r, search_cut_up rounds low high go fit ∙ found, longest)
          | inr over ↦
              let same : mid - 1 + 1 ≡ mid = omega arith in
              let (r, found, longest) =
                search_cut-from rounds low (mid - 1) (omega arith) (omega arith) (omega arith) d
                  (inr (rw same over)) in
              (r, search_cut_down rounds low high go over ∙ found, longest)
        ]
  ]

  -- With a probe that does not fail, `n` rounds are enough for `search_cut` on 0..n: it returns a
  -- length up to `n` that passes the probe, or 0, and one more character does not pass unless
  -- the length is `n`.
  pub search_cut-IsLongest : (r : ℕ) × (search_cut fits n 0 n ≡ ok r) × IsLongest r
  search_cut-IsLongest =
      search_cut-from n 0 n (omega arith) (omega arith) (omega arith) (inl refl) (inl refl)

take-take : (j k : ℕ) (s : Text) → take j (take k s) ≡ take (min j k) s
take-take zero k s = let e : min 0 k ≡ 0 = omega arith in rw e
take-take (suc j) zero s = let e : min (suc j) 0 ≡ 0 = omega arith in rw e
take-take (suc j) (suc k) [] = let e : min (suc j) (suc k) ≡ suc (min j k) = omega arith in rw e
take-take (suc j) (suc k) (c ∷ s) =
    let e : min (suc j) (suc k) ≡ suc (min j k) = omega arith in rw e (ap (◌∷◌ c) (take-take j k s))

module _ {F : Type 0} where
  abbrev pub Shortened : ContextChunk F → ContextChunk F → Type 0
  Shortened x y = (k : ℕ) × (y ≡ record x { content = take k x.content })

  -- `ys` is the beginning of `xs`, its last chunk perhaps with the beginning of its content.
  abbrev pub IsCut : List (ContextChunk F) → List (ContextChunk F) → Type 0
  IsCut xs [] = Unit
  IsCut [] (y ∷ ys) = ⊥
  IsCut (x ∷ xs) (y ∷ []) = Shortened x y
  IsCut (x ∷ xs) (y ∷ z ∷ ys) = (y ≡ x) × IsCut xs (z ∷ ys)

  pub Shortened-refl : (x : ContextChunk F) → Shortened x x
  Shortened-refl x = (
    length x.content,
    ap (λ (t : Text). record x { content = t })
        (sym (take_of_length-le (length x.content) x.content (omega arith))),
  )

  pub Shortened-trans : (x y z : ContextChunk F) → Shortened x y → Shortened y z → Shortened x z
  Shortened-trans x y z (k, e) (j, h) =
      (min j k, rw (h, e) (ap (λ (t : Text). record x { content = t }) (take-take j k x.content)))

  pub IsCut-refl : (xs : List (ContextChunk F)) → IsCut xs xs
  IsCut-refl [] = tt
  IsCut-refl (x ∷ []) = Shortened-refl x
  IsCut-refl (x ∷ y ∷ xs) = (refl, IsCut-refl (y ∷ xs))

  pub IsCut-trans : (xs ys zs : List (ContextChunk F)) → IsCut xs ys → IsCut ys zs → IsCut xs zs
  IsCut-trans xs ys [] h k = tt
  IsCut-trans xs [] (z ∷ zs) h k = elim k [ ]
  IsCut-trans [] (y ∷ ys) (z ∷ zs) h k = elim h [ ]
  IsCut-trans (x ∷ xs) (y ∷ []) (z ∷ []) h k = Shortened-trans x y z h k
  IsCut-trans (x ∷ xs) (y ∷ []) (z ∷ z' ∷ zs) h k = elim k.1 [ ]
  IsCut-trans (x ∷ xs) (y ∷ y' ∷ ys) (z ∷ []) h k = rw (← h.0) k
  IsCut-trans (x ∷ xs) (y ∷ y' ∷ ys) (z ∷ z' ∷ zs) h k =
      (k.0 ∙ h.0, IsCut-trans xs (y' ∷ ys) (z' ∷ zs) h.1 k.1)

  pub pop_chunk-IsCut : (xs : List (ContextChunk F)) → IsCut xs (pop_chunk xs)
  unfolding pop_chunk
  pop_chunk-IsCut [] = tt
  pop_chunk-IsCut (x ∷ []) = tt
  pop_chunk-IsCut (x ∷ y ∷ []) = Shortened-refl x
  pop_chunk-IsCut (x ∷ y ∷ z ∷ xs) = (refl, pop_chunk-IsCut (y ∷ z ∷ xs))

  pub set_last_content-IsCut :
      (k : ℕ) (xs : List (ContextChunk F))
      → IsCut xs (set_last_content (take k (last_content xs)) xs)
  unfolding set_last_content last_content
  set_last_content-IsCut k [] = tt
  set_last_content-IsCut k (x ∷ []) = (k, refl)
  set_last_content-IsCut k (x ∷ y ∷ []) = (refl, (k, refl))
  set_last_content-IsCut k (x ∷ y ∷ z ∷ xs) = (refl, set_last_content-IsCut k (y ∷ z ∷ xs))

  pub length-pop_chunk : (xs : List (ContextChunk F)) → length (pop_chunk xs) ≡ length xs - 1
  unfolding pop_chunk
  length-pop_chunk [] = refl
  length-pop_chunk (x ∷ []) = refl
  length-pop_chunk (x ∷ y ∷ xs) = omega (arith, length-pop_chunk (y ∷ xs))

  -- What is closed under shortening passes to a cut.
  pub All-cut :
      (P : ContextChunk F → Type 0)
      → ((x y : ContextChunk F) → Shortened x y → P x → P y)
      → (xs ys : List (ContextChunk F)) → IsCut xs ys
      → All P xs
      → All P ys
  All-cut P closed xs [] h k = tt
  All-cut P closed [] (y ∷ ys) h k = elim h [ ]
  All-cut P closed (x ∷ xs) (y ∷ []) h k = (closed x y h k.0, tt)
  All-cut P closed (x ∷ xs) (y ∷ z ∷ ys) h k = (rw h.0 k.0, All-cut P closed xs (z ∷ ys) h.1 k.1)
