-- ===== src/Embedder/OpenAi/Tests.antt =====
-- Runs of src/embedder/openai.rs against a server that is busy twice.
use vektor.Common.{
  ℕ, zero, suc, ◌+◌, ◌≤◌, ◌<◌, some, none, List, [], ◌∷◌, ◌++◌, length, ◌≡◌, refl, arith,
  if◌then◌else◌, ltb,
}
use vektor.Common.Text.{Text, codes, decimal, text_eq, trim_start, utf8_len}
use vektor.Common.Sort.{sort_by, insert_by}
use vektor.Common.Outcome.{ok, err, VektorError}
use mathlib.Core.List.{Perm}
use vektor.Embedder.OpenAi.{
  EmbedRecord, Parsed, Reply, Verdict, judge, accept, order_embeddings, check_indexes, by_index,
  max_retries, body_snippet, truncate_on_char_boundary, fitting, post_with_retry, build_endpoint,
  dim_for_model, embed,
}
use vektor.Embedder.OpenAi.Retry.{
  post_with_retry-bound, post_with_retry-done, post_with_retry-exhausted, pauses,
}
use vektor.Embedder.OpenAi.Truncate.{IsCut, truncate_on_char_boundary-IsCut}
use vektor.Embedder.OpenAi.Order.{order_embeddings-accepted, numbered}

abbrev row : ℕ → ℕ → EmbedRecord ℕ
row embedding index = record { embedding = embedding; index = index }

abbrev shuffled : List (EmbedRecord ℕ)
shuffled = row 8 1 ∷ row 7 0 ∷ []

abbrev two : List ℕ
two = 7 ∷ 8 ∷ []

abbrev busy : Reply ℕ
busy = Reply.response 429 (some (codes "busy")) (Parsed.malformed [])

abbrev server : ℕ → Reply ℕ
server n = if ltb n 2 then busy else Reply.response 200 none (Parsed.parsed shuffled)

abbrev busy_error : ℕ → VektorError
busy_error n = VektorError.embedding (
    codes "embeddings request failed with status 429 (attempt "
    ++ decimal (n + 1)
    ++ codes "/5): busy")

post_with_retry-bound_example :
    ((post_with_retry decimal 500 server 2).1.requests ≤ 5)
    × ((post_with_retry decimal 500 server 2).1.slept
        ≡ pauses 500 (post_with_retry decimal 500 server 2).1.requests)
post_with_retry-bound_example = post_with_retry-bound decimal 500 server 2

retried : (j : ℕ) → j < 2 → judge decimal 2 j (server j) ≡ Verdict.again (busy_error j)
unfolding judge body_snippet truncate_on_char_boundary fitting decimal utf8_len
retried zero h = refl
retried (suc zero) h = refl
retried (suc (suc j)) h = absurd (omega (arith, h))

post_with_retry-done_example :
    ((post_with_retry decimal 500 server 2).0 ≡ ok (7 ∷ 8 ∷ []))
    × ((post_with_retry decimal 500 server 2).1.requests ≡ 3)
unfolding judge accept order_embeddings sort_by insert_by by_index check_indexes body_snippet
    truncate_on_char_boundary fitting decimal utf8_len
post_with_retry-done_example =
    post_with_retry-done decimal 500 server 2 2 (ok (7 ∷ 8 ∷ [])) busy_error (omega arith) retried
      refl

busy_always : (j : ℕ) → j ≤ max_retries → judge decimal 2 j busy ≡ Verdict.again (busy_error j)
unfolding judge body_snippet truncate_on_char_boundary fitting decimal utf8_len
busy_always zero h = refl
busy_always (suc zero) h = refl
busy_always (suc (suc zero)) h = refl
busy_always (suc (suc (suc zero))) h = refl
busy_always (suc (suc (suc (suc zero)))) h = refl
busy_always (suc (suc (suc (suc (suc j))))) h = absurd (omega (arith, h))

post_with_retry-exhausted_example :
    (post_with_retry decimal 500 (λ n. busy) 2).0 ≡ err (busy_error 4)
post_with_retry-exhausted_example =
    post_with_retry-exhausted decimal 500 (λ n. busy) 2 busy_error busy_always

truncate_on_char_boundary-IsCut_example :
    (rest : Text) × IsCut 2 0 (codes "aéb") (truncate_on_char_boundary (codes "aéb") 2) rest
truncate_on_char_boundary-IsCut_example = truncate_on_char_boundary-IsCut (codes "aéb") 2

order_embeddings-accepted_example : Perm shuffled (numbered 0 two) × (length two ≡ 2)
unfolding order_embeddings sort_by insert_by by_index check_indexes
order_embeddings-accepted_example = order_embeddings-accepted shuffled 2 (7 ∷ 8 ∷ []) refl

cut_at_a_boundary : truncate_on_char_boundary (codes "abc") 2 ≡ codes "ab"
unfolding truncate_on_char_boundary fitting utf8_len
cut_at_a_boundary = refl

slash_is_stripped : build_endpoint (codes "http://h/v1/") ≡ codes "http://h/v1/embeddings"
unfolding build_endpoint trim_start
slash_is_stripped = refl

large_model : dim_for_model (codes "text-embedding-3-large") ≡ 3072
unfolding dim_for_model text_eq
large_model = refl

nothing_to_embed : (embed decimal 500 server 0 []).1.requests ≡ 0
unfolding embed
nothing_to_embed = refl
