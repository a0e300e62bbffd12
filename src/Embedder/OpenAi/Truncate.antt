-- ===== src/Embedder/OpenAi/Truncate.antt =====
-- How src/embedder/openai.rs shortens the bodies that it quotes.
use vektor.Common.{
  ℕ, ◌+◌, ◌≤◌, [], ◌∷◌, ◌++◌, ◌≡◌, refl, ap, arith, inl, inr, Bool-cases, ltb, ltb→lt,
}
use vektor.Common.Text.{Text, byte_len, utf8_len}
use vektor.Embedder.OpenAi.{fitting, truncate_on_char_boundary}

-- What a cut at a byte limit must be: a beginning of the text that fits, and either all of it or
-- followed by a character that would not fit.
abbrev pub IsCut : ℕ → ℕ → Text → Text → Text → Type 0
IsCut limit i s cut [] = (s ≡ cut) × (i + byte_len cut ≤ limit)
IsCut limit i s cut (c ∷ rest) =
    (s ≡ cut ++ (c ∷ rest))
    × (i + byte_len cut ≤ limit)
    × (limit + 1 ≤ i + byte_len cut + utf8_len c)

IsCut-cons :
    (limit i c : ℕ) (s cut rest : Text)
    → IsCut limit (i + utf8_len c) s cut rest
    → IsCut limit i (c ∷ s) (c ∷ cut) rest
unfolding byte_len
IsCut-cons limit i c s cut [] (same, fits) = (ap (λ t. c ∷ t) same, omega (arith, fits))
IsCut-cons limit i c s cut (d ∷ rest) (same, fits, over) =
    (ap (λ t. c ∷ t) same, omega (arith, fits), omega (arith, over))

fitting-IsCut :
    (limit i : ℕ) (s : Text) → i ≤ limit → (rest : Text) × IsCut limit i s (fitting limit i s) rest
unfolding fitting byte_len
fitting-IsCut limit i [] h = ([], (refl, omega (arith, h)))
fitting-IsCut limit i (c ∷ s) h = elim (Bool-cases (ltb limit (i + utf8_len c))) [
  | inl over ↦
      let above = ltb→lt limit (i + utf8_len c) over in
      rw over (c ∷ s, (refl, omega (arith, h), omega (arith, above)))
  | inr fits ↦
      let within : i + utf8_len c ≤ limit = ground arith in
      let (rest, cut) = fitting-IsCut limit (i + utf8_len c) s within in
      rw fits (rest, IsCut-cons limit i c s (fitting limit (i + utf8_len c) s) rest cut)
]

-- A truncated text is the longest beginning of whole characters within the limit: what it leaves out
-- is nothing, or starts with a character that would pass the limit.
pub truncate_on_char_boundary-IsCut :
    (s : Text) (max_bytes : ℕ)
    → (rest : Text) × IsCut max_bytes 0 s (truncate_on_char_boundary s max_bytes) rest
unfolding truncate_on_char_boundary
truncate_on_char_boundary-IsCut s max_bytes = fitting-IsCut max_bytes 0 s (omega arith)
