-- ===== src/Embedder/OpenAi.antt =====
-- src/embedder/openai.rs: the HTTP backend, with its retries. `V` stands for a vector.
-- The server is the function that answers each attempt.
pub mod Retry
pub mod Order
pub mod Truncate
mod Tests
use vektor.Common.{
  ℕ, zero, suc, ◌+◌, ◌-◌, ◌*◌, ◌^◌, ◌==◌, Bool, true, false, not, ◌&&◌, Option, some, none, List,
  [], ◌∷◌, ◌++◌, map, length, ltb, leb, if◌then◌else◌, Ordering, compare,
}
use vektor.Common.Text.{Text, codes, text_eq, decimal, utf8_len, trim_start, is_empty}
use vektor.Common.Sort.{sort_by}
use vektor.Common.Outcome.{Result, ok, err, VektorError}
use mathlib.Core.List.{reverse}

abbrev pub max_retries : ℕ
max_retries = 4

abbrev pub error_body_snippet_len : ℕ
error_body_snippet_len = 256

pub record EmbedRecord (V : Type 0) : Type 0 where
  pub embedding : V
  pub index : ℕ

-- The body of a successful response: it parses, or it does not.
pub data Parsed (V : Type 0) : Type 0 where
  parsed : List (EmbedRecord V) → Parsed V
  malformed : Text → Parsed V

-- What one request meets: no connection, or a status with the text of the body, where it can be
-- read, and what it parses to.
pub data Reply (V : Type 0) : Type 0 where
  transport_error : Text → Reply V
  response : ℕ → Option Text → Parsed V → Reply V

-- What an attempt comes to: the outcome of the call, or an error that is tried again.
pub data Verdict (V : Type 0) : Type 0 where
  done : Result (List V) → Verdict V
  again : VektorError → Verdict V

-- The characters, from byte `i` on, before the first that ends past `max_bytes`.
unfoldable pub fitting : ℕ → ℕ → Text → Text
fitting max_bytes i [] = []
fitting max_bytes i (c ∷ rest) =
    let tail = fitting max_bytes (i + utf8_len c) rest in
    if ltb max_bytes (i + utf8_len c) then [] else c ∷ tail

unfoldable pub truncate_on_char_boundary : Text → ℕ → Text
truncate_on_char_boundary s max_bytes = fitting max_bytes 0 s

unfoldable pub body_snippet : Option Text → Text
body_snippet none = codes "<could not read response body>"
body_snippet (some body) = truncate_on_char_boundary body error_body_snippet_len

-- `trim_end_matches('/')`
unfoldable pub build_endpoint : Text → Text
build_endpoint base_url =
    reverse (trim_start (λ c. c == b'/') (reverse base_url)) ++ codes "/embeddings"

unfoldable pub dim_for_model : Text → ℕ
dim_for_model model = if text_eq model (codes "text-embedding-3-large") then 3072 else 1536

module _ {V : Type 0} where
  unfoldable pub by_index : EmbedRecord V → EmbedRecord V → Ordering
  by_index left right = compare left.index right.index

  -- The indexes must be a complete sequence.
  unfoldable pub check_indexes : ℕ → ℕ → List (EmbedRecord V) → Result (Unit {0})
  check_indexes expected i [] = ok tt
  check_indexes expected i (record_ ∷ rest) =
      let checked = check_indexes expected (suc i) rest in
      if record_.index == i
      then checked
      else err (
          VektorError.embedding (
            codes "embeddings response index mismatch: expected index "
            ++ decimal i
            ++ codes ", got "
            ++ decimal record_.index
            ++ codes "; response indexes must be a complete 0.."
            ++ decimal (expected - 1)
            ++ codes " sequence"))

  unfoldable pub order_embeddings : List (EmbedRecord V) → ℕ → Result (List V)
  order_embeddings records expected =
      let sorted = sort_by by_index records in
      if not (length sorted == expected)
      then err (
          VektorError.embedding (
            codes "embeddings response contained "
            ++ decimal (length sorted)
            ++ codes " vectors but "
            ++ decimal expected
            ++ codes " were requested"))
      else elim (check_indexes expected 0 sorted) [
        | ok _ ↦ ok (map (λ (r : EmbedRecord V). r.embedding) sorted)
        | err e ↦ err e
      ]

  -- A response of a successful status.
  unfoldable pub accept : (ℕ → Text) → ℕ → ℕ → Parsed V → Result (List V)
  accept status_text expected status (Parsed.parsed records) = order_embeddings records expected
  accept status_text expected status (Parsed.malformed text) = err (
      VektorError.embedding (
        codes "failed to parse embeddings response (status "
        ++ status_text status
        ++ codes "): "
        ++ text))

  -- The body of the loop of `post_with_retry`, after the backoff.
  unfoldable pub judge : (ℕ → Text) → ℕ → ℕ → Reply V → Verdict V
  judge status_text expected attempt (Reply.transport_error text) =
      Verdict.again (VektorError.network text)
  judge status_text expected attempt (Reply.response status body json) =
      if leb 200 status && ltb status 300
      then Verdict.done (accept status_text expected status json)
      else if (leb 400 status && ltb status 500) && not (status == 429)
      then Verdict.done (
          err (
            VektorError.embedding (
              codes "embeddings request failed with non-retryable status "
              ++ status_text status
              ++ codes ": "
              ++ body_snippet body)))
      else Verdict.again (
          VektorError.embedding (
            codes "embeddings request failed with status "
            ++ status_text status
            ++ codes " (attempt "
            ++ decimal (attempt + 1)
            ++ codes "/"
            ++ decimal (max_retries + 1)
            ++ codes "): "
            ++ body_snippet body))

-- What a call has done so far: the requests sent and the pauses, in milliseconds.
pub record Sent : Type 0 where
  pub requests : ℕ
  pub slept : List ℕ

-- The pause before an attempt: `base * 2^(attempt - 1)`, and none before the first.
unfoldable pub backoff : ℕ → ℕ → List ℕ
backoff base zero = []
backoff base (suc attempt) = base * 2 ^ attempt ∷ []

module _ {V : Type 0} (status_text : ℕ → Text) (base_backoff : ℕ) (server : ℕ → Reply V)
    (expected : ℕ) where
  -- The loop over the attempts that are left.
  unfoldable pub try_attempts : ℕ → ℕ → VektorError → Sent → Result (List V) × Sent
  try_attempts zero attempt last_err sent = (err last_err, sent)
  try_attempts (suc left) attempt last_err sent =
      let now : Sent = record {
        requests = suc sent.requests;
        slept = sent.slept ++ backoff base_backoff attempt;
      } in
      elim (judge status_text expected attempt (server attempt)) [
        | Verdict.done result ↦ (result, now)
        | Verdict.again error ↦ try_attempts left (suc attempt) error now
      ]

  unfoldable pub post_with_retry : Result (List V) × Sent
  post_with_retry =
      try_attempts (max_retries + 1) 0
        (VektorError.embedding (codes "embeddings request failed after retries"))
        (record { requests = 0; slept = [] })

  -- `embed`, but for the pause of the rate limit.
  unfoldable pub embed : List Text → Result (List V) × Sent
  embed [] = (ok [], record { requests = 0; slept = [] })
  embed (text ∷ texts) = post_with_retry
