-- ===== src/Search/Synonyms/Words.antt =====
-- The alphabet of the queries that src/search/synonyms.rs writes for the text index.
use vektor.Common.{
  leb, ◌&&◌, not, ◌⊎◌, ℕ, Bool, true, false, ◌||◌, some, List, [], ◌∷◌, ◌++◌, map, all, ◌==◌,
  if◌then◌else◌, ◌≡◌, refl, sym, arith, Bool-cases, Option-cases, inl, inr, All, All-append,
  All-map, All-imp,
}
use vektor.Common.Text.{
  is_empty, Text, codes, text_eq, lower, join, to_ascii_lowercase, is_ascii_alphanumeric,
}
use vektor.Search.Synonyms.{
  synonym_map, find_term, synonyms_for, push_token, tokenize_query_from, tokenize_query,
  expand_token, expand,
}

-- A term is a nonempty text of lower-case ASCII letters, digits and `_`, so no keyword of the query
-- language (`AND`, `OR`, `NOT`).
abbrev pub is_term_char : ℕ → Bool
is_term_char c = (leb b'a' c && leb c b'z') || (leb b'0' c && leb c b'9') || (c == b'_')

abbrev pub IsTerm : Text → Type 0
IsTerm t = (is_empty t ≡ false) × All (λ c. is_term_char c ≡ true) t

-- A part is a term, or a bracketed group of terms with `OR` between them.
abbrev pub IsPart : Text → Type 0
IsPart part =
    IsTerm part
    ⊎ ((terms : List Text) × All IsTerm terms
        × (part ≡ codes "(" ++ join (codes " OR ") terms ++ codes ")"))

-- A query is parts with `OR` between them.
abbrev pub IsQuery : Text → Type 0
IsQuery query = (parts : List Text) × All IsPart parts × (query ≡ join (codes " OR ") parts)

lower_is_term :
    (c : ℕ)
    → (is_ascii_alphanumeric c || (c == b'_')) ≡ true
    → is_term_char (to_ascii_lowercase c) ≡ true
unfolding to_ascii_lowercase
lower_is_term c h = ground arith

push_token-IsTerm :
    (tokens : List Text) (current : Text)
    → All IsTerm tokens
    → All (λ c. is_term_char c ≡ true) current
    → All IsTerm (push_token tokens current)
unfolding push_token is_empty
push_token-IsTerm tokens [] h k = h
push_token-IsTerm tokens (c ∷ rest) h k =
    All-append IsTerm tokens ((c ∷ rest) ∷ []) h ((refl, k), tt)

tokenize-IsTerm :
    (s : Text) (tokens : List Text) (current : Text)
    → All IsTerm tokens
    → All (λ c. is_term_char c ≡ true) current
    → All IsTerm (tokenize_query_from tokens current s)
unfolding tokenize_query_from
tokenize-IsTerm [] tokens current h k = push_token-IsTerm tokens current h k
tokenize-IsTerm (c ∷ s) tokens current h k =
    elim (Bool-cases (is_ascii_alphanumeric c || (c == b'_'))) [
      | inl word ↦ rw word (
          tokenize-IsTerm s tokens (current ++ (to_ascii_lowercase c ∷ [])) h (
            All-append (λ x. is_term_char x ≡ true) current (to_ascii_lowercase c ∷ []) k
              (lower_is_term c word, tt)))
      | inr other ↦ rw other (
          tokenize-IsTerm s (push_token tokens current) [] (push_token-IsTerm tokens current h k)
            tt)
    ]

all→All : (p : ℕ → Bool) (s : Text) → all p s ≡ true → All (λ c. p c ≡ true) s
all→All p [] h = tt
all→All p (c ∷ s) h = (ground arith, all→All p s (ground arith))

abbrev is_term : Text → Bool
is_term t = not (is_empty t) && all is_term_char t

-- Every synonym of the table is a term.
abbrev table_is_terms : List (Text × List Text) → Bool
table_is_terms [] = true
table_is_terms (entry ∷ entries) = if all is_term entry.1 then table_is_terms entries else false

alls→All : (parts : List Text) → all is_term parts ≡ true → All IsTerm parts
alls→All [] h = tt
alls→All (p ∷ parts) h =
    ((ground arith, all→All is_term_char p (ground arith)), alls→All parts (ground arith))

find_term-IsTerm :
    (term : Text) (entries : List (Text × List Text)) (synonyms : List Text)
    → table_is_terms entries ≡ true
    → find_term term entries ≡ some synonyms
    → All IsTerm synonyms
unfolding find_term
find_term-IsTerm term [] synonyms w h = cc
find_term-IsTerm term (e ∷ entries) synonyms w h = elim (Bool-cases (text_eq e.0 term)) [
  | inl found ↦
      let same : e.1 ≡ synonyms = ground arith in rw (sym same) (alls→All e.1 (ground arith))
  | inr other ↦ find_term-IsTerm term entries synonyms (ground arith) (ground arith)
]

expand_token-IsPart : (token : Text) → IsTerm token → IsPart (expand_token token)
unfolding expand_token synonyms_for is_empty
expand_token-IsPart token h = elim (Option-cases (find_term (lower token) synonym_map)) [
  | inl none_found ↦ rw (expand_token, synonyms_for, none_found) (inl h)
  | inr (synonyms, e) ↦
      rw (expand_token, synonyms_for, e)
        (inr (synonyms, find_term-IsTerm (lower token) synonym_map synonyms refl e, refl))
]

-- Whatever the user writes, the expanded query is a list of terms and bracketed groups of terms with
-- `OR` between them; a term is not empty and has only lower-case ASCII letters, digits and `_`.
pub expand-IsQuery : (query : Text) → IsQuery (expand query)
unfolding expand tokenize_query
expand-IsQuery query = (
  map expand_token (tokenize_query query),
  All-map IsPart expand_token (tokenize_query query) (
      All-imp IsTerm (λ t. IsPart (expand_token t)) expand_token-IsPart (tokenize_query query)
        (tokenize-IsTerm query [] [] tt tt)),
  refl,
)
