-- ===== src/Secrets/Tests.antt =====
-- Runs of src/secrets.rs on names.
use vektor.Common.{◌⊎◌, true, false, some, none, [], ◌∷◌, ◌≡◌, refl, Any, ℕ, ◌+◌, ltb}
use vektor.Common.Text.{
  codes, text_eq, lower, contains, starts_with, member, split, push_head, byte_len, utf8_len,
}
use vektor.Secrets.{
  should_skip_file, in_secret_place, is_env_variant, has_secret_extension, last_part, ends_with,
  EntropyOps, Patterns, contains_secret, any_captured, is_high_entropy_secret, shannon_entropy,
  class_count, sum, counts_from, count,
}
use vektor.Secrets.Skips.{placeholders, should_skip_file-env}

should_skip_file-env_example :
    (should_skip_file lower (codes "a/.ENV.local") ≡ true)
    ⊎ Any (λ safe. codes ".env.local" ≡ safe) placeholders
unfolding last_part split push_head starts_with lower
should_skip_file-env_example = should_skip_file-env lower (codes "a/.ENV.local") refl

local_environment : should_skip_file lower (codes "a/.ENV.local") ≡ true
unfolding should_skip_file in_secret_place is_env_variant has_secret_extension last_part ends_with
    split push_head starts_with contains member text_eq lower byte_len utf8_len
local_environment = refl

-- An entropy that is the number of bytes.
abbrev by_length : EntropyOps ℕ
by_length = record {
  from_count = λ n. n;
  zero = 0;
  add = λ a b. a + b;
  sub_product = λ p l. 1;
  div = λ a b. a;
  log2 = λ a. a;
  lt = ltb;
  entropy_threshold = 3;
}

abbrev no_patterns : Patterns
no_patterns = record {
  pem_header = λ _. false;
  aws_access_key = λ _. false;
  github_token = λ _. false;
  slack_token = λ _. false;
  jwt = λ _. false;
  google_api_key = λ _. false;
  stripe_key = λ _. false;
  openai_key = λ _. false;
  high_entropy_assignment_quoted = λ s. some s ∷ [];
  high_entropy_assignment_unquoted = λ _. none ∷ [];
}

mixed_classes : contains_secret by_length (λ s. s) no_patterns (codes "aB1") ≡ true
unfolding contains_secret any_captured is_high_entropy_secret shannon_entropy class_count sum
    counts_from count
mixed_classes = refl

one_class : contains_secret by_length (λ s. s) no_patterns (codes "abc") ≡ false
unfolding contains_secret any_captured is_high_entropy_secret shannon_entropy class_count sum
    counts_from count
one_class = refl
