-- ===== src/Secrets/Skips.antt =====
-- Which environment files src/secrets.rs lets in.
use vektor.Common.{◌⊎◌, true, false, List, [], ◌∷◌, ◌≡◌, arith, inl, inr, Any, any, Bool-cases}
use vektor.Common.Text.{Text, codes, text_eq, text_eq→eq, starts_with, split}
use vektor.Secrets.{should_skip_file, is_env_variant, last_part}

any-Any :
    (filename : Text) (names : List Text)
    → any (λ safe. text_eq filename safe) names ≡ true
    → Any (λ safe. filename ≡ safe) names
any-Any filename [] h = absurd (cc h)
any-Any filename (name ∷ names) h = elim (Bool-cases (text_eq filename name)) [
  | inl same ↦ inl (text_eq→eq filename name same)
  | inr other ↦ inr (any-Any filename names (ground arith))
]

-- The names of environment files that hold no secrets.
abbrev pub placeholders : List Text
placeholders =
    codes ".env.example"
    ∷ codes ".env.sample"
    ∷ codes ".env.template"
    ∷ codes ".env.dist"
    ∷ codes ".env.defaults"
    ∷ []

is_env_variant_cases :
    (filename : Text)
    → starts_with filename (codes ".env.") ≡ true
    → is_env_variant filename ≡ false
    → Any (λ safe. filename ≡ safe) placeholders
unfolding is_env_variant
is_env_variant_cases filename env h = any-Any filename placeholders (ground arith)

-- Whatever its directory, a file whose name in lower case starts with `.env.` is skipped, unless
-- that name is `.env.example`, `.env.sample`, `.env.template`, `.env.dist` or `.env.defaults`.
pub should_skip_file-env :
    (to_lowercase : Text → Text) (rel_path : Text)
    → starts_with (to_lowercase (last_part (split b'/' rel_path))) (codes ".env.") ≡ true
    → (should_skip_file to_lowercase rel_path ≡ true)
      ⊎ Any (λ safe. to_lowercase (last_part (split b'/' rel_path)) ≡ safe) placeholders
unfolding should_skip_file
should_skip_file-env to_lowercase rel_path env =
    let filename = to_lowercase (last_part (split b'/' rel_path)) in
    elim (Bool-cases (is_env_variant filename)) [
      | inl variant ↦ inl (ground arith)
      | inr safe ↦ inr (is_env_variant_cases filename env safe)
    ]
