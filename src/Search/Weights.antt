-- ===== src/Search/Weights.antt =====
-- src/search/weights.rs: how a query's shape weighs semantic against keyword search.
mod Tests
use vektor.Common.{
  ℕ, zero, suc, ◌+◌, Bool, true, false, ◌&&◌, ◌||◌, not, Option, some, none, List, [], ◌∷◌, ◌++◌,
  filter, any, all, length, ◌==◌, leb, if◌then◌else◌,
}
use vektor.Common.Text.{
  Text, trim_both, is_empty, split, is_ascii_lowercase, is_ascii_uppercase, is_ascii_digit,
  is_ascii_alphabetic, is_ascii_alphanumeric,
}
use vektor.Common.Float.{FloatOps}
use mathlib.Core.List.{reverse}

pub record AdaptiveWeights (F : Type 0) : Type 0 where
  pub semantic : F
  pub keyword : F

pub push_token : List Text → Text → List Text
unfolding trim_both is_empty
push_token tokens current =
    let token = trim_both (λ c. c == b'.') current in
    if is_empty token then tokens else tokens ++ (token ∷ [])

-- The loop of `identifier_tokens`, with the tokens and the current one so far.
pub identifier_tokens_from : List Text → Text → Text → List Text
unfolding push_token
identifier_tokens_from tokens current [] = push_token tokens current
identifier_tokens_from tokens current (ch ∷ rest) =
    if is_ascii_alphanumeric ch || (ch == b'_') || (ch == b'.')
    then identifier_tokens_from tokens (current ++ (ch ∷ [])) rest
    else identifier_tokens_from (push_token tokens current) [] rest

pub identifier_tokens : Text → List Text
unfolding identifier_tokens_from
identifier_tokens = identifier_tokens_from [] []

-- The loop over the parts of a token, with `saw_alpha`.
pub parts_are : (ℕ → Bool) → Bool → List Text → Bool
unfolding is_empty
parts_are allowed saw_alpha [] = saw_alpha
parts_are allowed saw_alpha (part ∷ parts) =
    if is_empty part || not (all allowed part)
    then false
    else parts_are allowed (saw_alpha || any is_ascii_alphabetic part) parts

pub is_snake_case : Text → Bool
unfolding parts_are split
is_snake_case token =
    if not (any (λ c. c == b'_') token)
    then false
    else parts_are is_ascii_alphanumeric false (split b'_' token)

pub camel_from : Option ℕ → Text → Bool
camel_from previous [] = false
camel_from previous (ch ∷ rest) =
    let later = camel_from (some ch) rest in
    let step = elim previous as (λ _. Bool) [
      | none ↦ false
      | some prev ↦ is_ascii_lowercase prev && is_ascii_uppercase ch
    ] in
    if not (is_ascii_alphanumeric ch) then false else if step then true else later

pub is_camel_or_pascal_case : Text → Bool
unfolding camel_from
is_camel_or_pascal_case = camel_from none

pub is_dotted_path : Text → Bool
unfolding parts_are split
is_dotted_path token =
    if not (any (λ c. c == b'.') token)
    then false
    else parts_are (λ c. is_ascii_alphanumeric c || (c == b'_')) false (split b'.' token)

-- `strip_suffix('s')` where what is left has an upper-case letter.
pub acronym_body : Text → Text
acronym_body token = body token (reverse token)
  where
    body : Text → Text → Text
    body token [] = token
    body token (last ∷ before) =
        if (last == b's') && any is_ascii_uppercase before then reverse before else token

pub acronym_from : ℕ → Text → Bool
acronym_from uppercase_count [] = leb 2 uppercase_count
acronym_from uppercase_count (ch ∷ rest) =
    if is_ascii_uppercase ch
    then acronym_from (suc uppercase_count) rest
    else if is_ascii_digit ch || (ch == b'_')
    then acronym_from uppercase_count rest
    else false

pub is_acronym_style : Text → Bool
unfolding acronym_from acronym_body
is_acronym_style token = acronym_from 0 (acronym_body token)

pub is_identifier : Text → Bool
unfolding is_snake_case is_camel_or_pascal_case is_dotted_path is_acronym_style
is_identifier token =
    is_snake_case token
    || is_camel_or_pascal_case token
    || is_dotted_path token
    || is_acronym_style token

module _ {F : Type 0} ⦃f : FloatOps F⦄ where
  abbrev pub identifier_heavy : AdaptiveWeights F
  identifier_heavy = record { semantic = f.literal 4 10; keyword = f.literal 6 10 }

  abbrev pub mixed : AdaptiveWeights F
  mixed = record { semantic = f.literal 6 10; keyword = f.literal 4 10 }

  abbrev pub natural_language : AdaptiveWeights F
  natural_language = record { semantic = f.literal 7 10; keyword = f.literal 3 10 }

  pub compute : Text → AdaptiveWeights F
  unfolding identifier_tokens is_identifier
  compute query =
      let tokens = identifier_tokens query in
      let identifier_count = length (filter is_identifier tokens) in
      let density = f.div (f.from_usize identifier_count) (f.from_usize (length tokens)) in
      if length tokens == 0
      then mixed
      else if f.lt (f.literal 60 100) density
      then identifier_heavy
      else if f.lt density (f.literal 25 100)
      then natural_language
      else mixed
