-- ===== src/Secrets.antt =====
-- src/secrets.rs: which files and which chunks count as secrets. The regular expressions, Unicode
-- lower case and the floats are parameters.
pub mod Skips
mod Tests
use vektor.Common.{
  ℕ, zero, suc, ◌+◌, Bool, true, false, not, ◌||◌, ◌&&◌, Option, some, none, List, [], ◌∷◌, ◌++◌,
  map, any, filter, length, if◌then◌else◌, ltb, leb, ◌==◌,
}
use vektor.Common.Text.{
  Text, codes, text_eq, contains, starts_with, member, split, byte_len, is_ascii_lowercase,
  is_ascii_uppercase, is_ascii_digit,
}
use mathlib.Core.List.{reverse}

abbrev pub secret_filename_patterns : List Text
secret_filename_patterns =
    codes ".env"
    ∷ codes "id_rsa"
    ∷ codes "id_dsa"
    ∷ codes "id_ecdsa"
    ∷ codes "id_ed25519"
    ∷ codes "id_ecdsa_sk"
    ∷ codes "id_ed25519_sk"
    ∷ codes ".npmrc"
    ∷ codes ".yarnrc"
    ∷ codes ".yarnrc.yml"
    ∷ codes ".pnpmfile.cjs"
    ∷ []

abbrev pub secret_extensions : List Text
secret_extensions = codes "pem" ∷ codes "key" ∷ codes "p12" ∷ codes "pfx" ∷ codes "jks" ∷ []

abbrev pub secret_path_components : List Text
secret_path_components =
    codes ".aws/credentials"
    ∷ codes ".aws/config"
    ∷ codes ".ssh/id_rsa"
    ∷ codes ".ssh/id_dsa"
    ∷ codes ".ssh/id_ecdsa"
    ∷ codes ".ssh/id_ed25519"
    ∷ codes ".ssh/id_ecdsa_sk"
    ∷ codes ".ssh/id_ed25519_sk"
    ∷ codes "client_secret.json"
    ∷ codes "service_account.json"
    ∷ codes "gcloud/credentials.db"
    ∷ codes ".config/gcloud/credentials.db"
    ∷ codes ".kube/config"
    ∷ codes "secrets.yml"
    ∷ codes "secrets.yaml"
    ∷ []

abbrev pub safe_env_suffixes : List Text
safe_env_suffixes =
    codes ".env.example"
    ∷ codes ".env.sample"
    ∷ codes ".env.template"
    ∷ codes ".env.dist"
    ∷ codes ".env.defaults"
    ∷ []

-- `rsplit(c).next()`: what stands after the last separator, or the whole.
unfoldable pub last_part : List Text → Text
last_part [] = []
last_part (part ∷ []) = part
last_part (part ∷ next ∷ parts) = last_part (next ∷ parts)

unfoldable pub ends_with : Text → Text → Bool
ends_with s suffix = starts_with (reverse s) (reverse suffix)

unfoldable pub in_secret_place : Text → Bool
in_secret_place path_lower =
    any (λ pattern. ends_with path_lower pattern || contains path_lower (b'/' ∷ pattern))
      secret_path_components

unfoldable pub is_env_variant : Text → Bool
is_env_variant filename =
    starts_with filename (codes ".env.")
    && not (any (λ safe. text_eq filename safe) safe_env_suffixes)

unfoldable pub has_secret_extension : Text → Bool
has_secret_extension filename =
    let ext = last_part (split b'.' filename) in
    ltb (byte_len ext) (byte_len filename) && member ext secret_extensions

-- `to_lowercase` is `str::to_lowercase`.
unfoldable pub should_skip_file : (Text → Text) → Text → Bool
should_skip_file to_lowercase rel_path =
    let filename = to_lowercase (last_part (split b'/' rel_path)) in
    if in_secret_place (to_lowercase rel_path)
    then true
    else if member filename secret_filename_patterns
    then true
    else if is_env_variant filename
    then true
    else has_secret_extension filename

-- The compiled expressions: what they match, and the values that the two assignments capture.
pub record Patterns : Type 0 where
  pub pem_header : Text → Bool
  pub aws_access_key : Text → Bool
  pub github_token : Text → Bool
  pub slack_token : Text → Bool
  pub jwt : Text → Bool
  pub google_api_key : Text → Bool
  pub stripe_key : Text → Bool
  pub openai_key : Text → Bool
  pub high_entropy_assignment_quoted : Text → List (Option Text)
  pub high_entropy_assignment_unquoted : Text → List (Option Text)

-- `u8::is_ascii_punctuation`
abbrev is_ascii_punctuation : ℕ → Bool
is_ascii_punctuation b =
    (leb 33 b && leb b 47)
    || (leb 58 b && leb b 64)
    || (leb 91 b && leb b 96)
    || (leb 123 b && leb b 126)

-- The `f64` operations of `shannon_entropy`.
pub record EntropyOps (F : Type 0) : Type 0 where
  pub from_count : ℕ → F
  pub zero : F
  pub add : F → F → F
  pub sub_product : F → F → F
  pub div : F → F → F
  pub log2 : F → F
  pub lt : F → F → Bool
  -- The literal 4.0.
  pub entropy_threshold : F

-- The bytes of a text, and how often each byte occurs; `bytes` is the UTF-8 encoding.
unfoldable pub count : ℕ → List ℕ → ℕ
count b [] = 0
count b (x ∷ xs) = if x == b then suc (count b xs) else count b xs

unfoldable pub counts_from : ℕ → ℕ → List ℕ → List ℕ
counts_from b zero bytes = []
counts_from b (suc left) bytes = count b bytes ∷ counts_from (suc b) left bytes

module _ {F : Type 0} (f : EntropyOps F) where
  unfoldable pub sum : List F → F → F
  sum [] total = total
  sum (x ∷ xs) total = sum xs (f.add total x)

  -- `-p * p.log2()` of each byte that occurs.
  unfoldable pub shannon_entropy : List ℕ → F
  shannon_entropy [] = f.zero
  shannon_entropy (b ∷ bytes) =
      let len = f.from_count (length (b ∷ bytes)) in
      let seen = filter (λ c. ltb 0 c) (counts_from 0 256 (b ∷ bytes)) in
      sum (map (λ c. let p = f.div (f.from_count c) len in f.sub_product p (f.log2 p)) seen) f.zero

  abbrev to_count : Bool → ℕ
  to_count true = 1
  to_count false = 0

  unfoldable pub class_count : List ℕ → ℕ
  class_count bytes =
      to_count (any is_ascii_lowercase bytes)
      + to_count (any is_ascii_uppercase bytes)
      + to_count (any is_ascii_digit bytes)
      + to_count (any is_ascii_punctuation bytes)

  unfoldable pub is_high_entropy_secret : List ℕ → Bool
  is_high_entropy_secret bytes =
      if f.lt (shannon_entropy bytes) f.entropy_threshold then false else leb 2 (class_count bytes)

  unfoldable pub any_captured : (Text → List ℕ) → List (Option Text) → Bool
  any_captured to_bytes [] = false
  any_captured to_bytes (none ∷ caps) = any_captured to_bytes caps
  any_captured to_bytes (some value ∷ caps) =
      if is_high_entropy_secret (to_bytes value) then true else any_captured to_bytes caps

  unfoldable pub contains_secret : (Text → List ℕ) → Patterns → Text → Bool
  contains_secret to_bytes p content =
      if p.pem_header content
      then true
      else if p.aws_access_key content
      then true
      else if p.github_token content
      then true
      else if p.slack_token content
      then true
      else if p.jwt content
      then true
      else if p.google_api_key content
      then true
      else if p.stripe_key content
      then true
      else if p.openai_key content
      then true
      else if any_captured to_bytes (p.high_entropy_assignment_quoted content)
      then true
      else any_captured to_bytes (p.high_entropy_assignment_unquoted content)
