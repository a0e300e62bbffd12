-- ===== src/Embedder/OpenAi/Order.antt =====
-- What src/embedder/openai.rs accepts as a response.
use vektor.Common.{
  subst, ℕ, suc, List, [], ◌∷◌, map, length, ◌≡◌, refl, ap, sym, ◌∙◌, arith, inl, inr, length-map,
}
use vektor.Common.Sort.{sort_by, sort_by-perm}
use vektor.Common.Outcome.{ok, Result-cases}
use mathlib.Core.List.{Perm}
use mathlib.Core.List.Perm
use vektor.Embedder.OpenAi.{EmbedRecord, by_index, check_indexes, order_embeddings}

module _ {V : Type 0} where
  -- The vectors as the records of a response in input order.
  abbrev pub numbered : ℕ → List V → List (EmbedRecord V)
  numbered i [] = []
  numbered i (v ∷ vs) = record { embedding = v; index = i } ∷ numbered (suc i) vs

  abbrev embeddings : List (EmbedRecord V) → List V
  embeddings = map (λ (r : EmbedRecord V). r.embedding)

  checked-numbered :
      (expected i : ℕ) (rs : List (EmbedRecord V))
      → check_indexes expected i rs ≡ ok tt
      → rs ≡ numbered i (embeddings rs)
  unfolding check_indexes
  checked-numbered expected i [] h = refl
  checked-numbered expected i (r ∷ rs) h =
      let tail : check_indexes expected (suc i) rs ≡ ok tt = ground arith in
      let here : r.index ≡ i = ground arith in
      let first : r ≡ record { embedding = r.embedding; index = i } =
        ap (λ n. record r { index = n }) here in
      rw (← checked-numbered expected (suc i) rs tail) (ap (λ x. x ∷ rs) first)

  -- What acceptance has tested.
  tested :
      (rs : List (EmbedRecord V)) (expected : ℕ) (vs : List V)
      → order_embeddings rs expected ≡ ok vs
      → (length (sort_by by_index rs) ≡ expected)
        × (check_indexes expected 0 (sort_by by_index rs) ≡ ok tt)
        × (embeddings (sort_by by_index rs) ≡ vs)
  unfolding order_embeddings
  tested rs expected vs h = elim (Result-cases (check_indexes expected 0 (sort_by by_index rs))) [
    | inl (_, passed) ↦ (ground arith, passed, ground arith)
    | inr (e, failed) ↦ absurd (ground arith)
  ]

  -- A response that is accepted holds one record for each text: in some order, the vectors that are
  -- returned, each with its position as its index.
  pub order_embeddings-accepted :
      (rs : List (EmbedRecord V)) (expected : ℕ) (vs : List V)
      → order_embeddings rs expected ≡ ok vs
      → Perm rs (numbered 0 vs) × (length vs ≡ expected)
  order_embeddings-accepted rs expected vs h =
      let sorted = sort_by by_index rs in
      let (count, passed, same) = tested rs expected vs h in
      let in_order : sorted ≡ numbered 0 vs =
        checked-numbered expected 0 sorted passed ∙ ap (numbered 0) same in
      (
        subst (λ l. Perm rs l) in_order (Perm.symm (sort_by-perm by_index rs)),
        sym (ap length same) ∙ (length-map sorted (λ (r : EmbedRecord V). r.embedding) ∙ count),
      )
