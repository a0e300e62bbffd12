-- ===== src/Context/Budget/Tests.antt =====
-- Runs of src/context/budget.rs, with tokens in thousandths.
use vektor.Common.{ℕ, ◌≡◌, refl}
use vektor.Common.Milli.{milli}
use vektor.Common.Text.{
  codes, is_empty, byte_len, utf8_len, lower, trim, trim_both, trim_start, is_whitespace, member,
  text_eq, to_ascii_lowercase,
}
use vektor.Context.Budget.{ratio_for, estimate}

-- 21 bytes of Rust at 4.2 bytes a token are 5 tokens.
rust_estimate : estimate ℕ (codes "fn main() { run() };;") (codes " Rust") ≡ 5
unfolding estimate ratio_for is_empty byte_len utf8_len lower to_ascii_lowercase trim trim_both
    trim_start is_whitespace member text_eq
rust_estimate = refl
