-- ===== src/Search/Weights/Tests.antt =====
-- Runs of src/search/weights.rs, with weights in thousandths.
use vektor.Common.{ℕ, ◌≡◌, refl, true}
use vektor.Common.Milli.{milli}
use vektor.Common.Text.{codes, trim_both, trim_start, is_empty, split, push_head}
use vektor.Search.Weights.{
  identifier_heavy, compute, identifier_tokens, identifier_tokens_from, push_token, parts_are,
  is_snake_case, camel_from, is_camel_or_pascal_case, is_dotted_path, acronym_body, acronym_from,
  is_acronym_style, is_identifier,
}

plural_acronym : is_identifier (codes "JWTs") ≡ true
unfolding is_identifier is_snake_case is_camel_or_pascal_case is_dotted_path is_acronym_style
    acronym_body acronym_from camel_from
plural_acronym = refl

identifiers_weigh_words : compute (codes "a_b Cd.eF x.") ≡ identifier_heavy {F = ℕ}
unfolding compute identifier_tokens identifier_tokens_from push_token trim_both trim_start is_empty
    is_identifier is_snake_case is_camel_or_pascal_case is_dotted_path is_acronym_style acronym_body
    acronym_from camel_from parts_are split push_head
identifiers_weigh_words = refl
