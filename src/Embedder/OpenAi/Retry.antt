-- ===== src/Embedder/OpenAi/Retry.antt =====
-- How the retries of src/embedder/openai.rs end.
use vektor.Common.{
  subst, ℕ, zero, suc, ◌+◌, ◌*◌, ◌^◌, ◌≤◌, ◌<◌, List, [], ◌∷◌, ◌++◌, ◌≡◌, refl, sym, ap, arith, inl,
  inr, ◌⊎◌,
}
use vektor.Common.Text.{Text}
use vektor.Common.Outcome.{Result, err, VektorError}
use vektor.Embedder.OpenAi.{
  Reply, Verdict, judge, Sent, backoff, try_attempts, post_with_retry, max_retries,
}

pub Verdict-cases :
    {V : Type 0} (v : Verdict V)
    → ((r : Result (List V)) × (v ≡ Verdict.done r)) ⊎ ((e : VektorError) × (v ≡ Verdict.again e))
Verdict-cases (Verdict.done r) = inl (r, refl)
Verdict-cases (Verdict.again e) = inr (e, refl)

le-cases : (m n : ℕ) → m ≤ n → (m ≡ n) ⊎ (m < n)
le-cases m n h = ground arith

-- The pauses that belong to a count of requests: none before the first, then one that doubles.
abbrev pub pauses : ℕ → ℕ → List ℕ
pauses base zero = []
pauses base (suc zero) = []
pauses base (suc (suc k)) = pauses base (suc k) ++ (base * 2 ^ k ∷ [])

pauses-backoff : (base k : ℕ) → pauses base (suc k) ≡ pauses base k ++ backoff base k
unfolding backoff
pauses-backoff base zero = refl
pauses-backoff base (suc k) = refl

module _ {V : Type 0} (status_text : ℕ → Text) (base : ℕ) (server : ℕ → Reply V)
    (expected : ℕ) where
  -- A count of requests, with the pauses that belong to them.
  abbrev Steady : Sent → Type 0
  Steady sent = sent.slept ≡ pauses base sent.requests

  abbrev after_request : Sent → ℕ → Sent
  after_request sent attempt = record {
    requests = suc sent.requests;
    slept = sent.slept ++ backoff base attempt;
  }

  loop : ℕ → ℕ → VektorError → Sent → Result (List V) × Sent
  loop = try_attempts status_text base server expected

  verdict : ℕ → Verdict V
  verdict attempt = judge status_text expected attempt (server attempt)

  step_done :
      (left attempt : ℕ) (e : VektorError) (sent : Sent) (r : Result (List V))
      → verdict attempt ≡ Verdict.done r
      → loop (suc left) attempt e sent ≡ (r, after_request sent attempt)
  unfolding loop try_attempts verdict
  step_done left attempt e sent r h = rw (try_attempts, h) refl

  step_again :
      (left attempt : ℕ) (e next : VektorError) (sent : Sent)
      → verdict attempt ≡ Verdict.again next
      → loop (suc left) attempt e sent ≡ loop left (suc attempt) next (after_request sent attempt)
  unfolding loop try_attempts verdict
  step_again left attempt e next sent h = rw (try_attempts, h) refl

  loop-Steady :
      (left attempt : ℕ) (e : VektorError) (sent : Sent)
      → sent.requests ≡ attempt
      → Steady sent
      → let (r, last) = loop left attempt e sent in Steady last × (last.requests ≤ attempt + left)
  unfolding loop try_attempts
  loop-Steady zero attempt e sent count steady = (steady, omega arith)
  loop-Steady (suc left) attempt e sent count steady =
      let paused : Steady (after_request sent attempt) =
        rw (steady, count, pauses-backoff base attempt) refl in
      elim (Verdict-cases (verdict attempt)) [
        | inl (result, ends) ↦ rw (step_done left attempt e sent result ends) (paused, omega arith)
        | inr (error, retried) ↦
            let (kept, bound) =
              loop-Steady left (suc attempt) error (after_request sent attempt) (ap suc count)
                paused in
            rw (step_again left attempt e error sent retried) (kept, omega (arith, bound))
      ]

  -- A call sends at most five requests, and pauses before the k-th retry for `base * 2^(k - 1)`
  -- milliseconds and not otherwise, whatever the server answers.
  pub post_with_retry-bound :
      let sent = (post_with_retry status_text base server expected).1 in
      (sent.requests ≤ 5) × (sent.slept ≡ pauses base sent.requests)
  unfolding post_with_retry loop
  post_with_retry-bound =
      let (steady, bound) = loop-Steady (max_retries + 1) 0 _ _ refl refl in
      (omega (arith, bound), steady)

  loop-done :
      (left attempt : ℕ) (e : VektorError) (sent : Sent) (k : ℕ) (r : Result (List V))
      (errors : ℕ → VektorError)
      → sent.requests ≡ attempt
      → attempt ≤ k
      → k < attempt + left
      → ((j : ℕ) → attempt ≤ j → j < k → verdict j ≡ Verdict.again (errors j))
      → verdict k ≡ Verdict.done r
      → ((loop left attempt e sent).0 ≡ r) × ((loop left attempt e sent).1.requests ≡ suc k)
  loop-done zero attempt e sent k r errors count from to before ends =
      absurd (omega (arith, from, to))
  loop-done (suc left) attempt e sent k r errors count from to before ends =
      elim (le-cases attempt k from) [
        | inl here ↦
            let at : verdict attempt ≡ Verdict.done r =
              subst (λ j. verdict j ≡ Verdict.done r) (sym here) ends in
            rw (step_done left attempt e sent r at) (refl, omega (arith, count, here))
        | inr later ↦
            rw
              (step_again left attempt e (errors attempt) sent (before attempt (omega arith) later))
              (loop-done left (suc attempt) (errors attempt) (after_request sent attempt) k r errors
                (ap suc count) (omega (arith, later)) (omega (arith, to))
                (λ j after_ below. before j (omega (arith, after_)) below) ends)
      ]

  -- Where some attempt among the first five ends the call, and those before it meet errors that are
  -- retried, the call has the outcome of that attempt and sends no further request.
  pub post_with_retry-done :
      (k : ℕ) (r : Result (List V)) (errors : ℕ → VektorError)
      → k ≤ max_retries
      → ((j : ℕ) → j < k → judge status_text expected j (server j) ≡ Verdict.again (errors j))
      → judge status_text expected k (server k) ≡ Verdict.done r
      → ((post_with_retry status_text base server expected).0 ≡ r)
        × ((post_with_retry status_text base server expected).1.requests ≡ suc k)
  unfolding post_with_retry verdict loop
  post_with_retry-done k r errors within before ends =
      loop-done (max_retries + 1) 0 _ _ k r errors refl (omega arith) (omega (arith, within))
        (λ j _ below. before j below) ends

  loop-exhausted :
      (left attempt : ℕ) (e : VektorError) (sent : Sent) (errors : ℕ → VektorError)
      → ((j : ℕ) → attempt ≤ j → j ≤ attempt + left → verdict j ≡ Verdict.again (errors j))
      → (loop (suc left) attempt e sent).0 ≡ err (errors (attempt + left))
  unfolding loop try_attempts
  loop-exhausted zero attempt e sent errors retried =
      rw
        (step_again zero attempt e (errors attempt) sent
          (retried attempt (omega arith) (omega arith)))
        (ap (λ n. err (errors n)) (omega arith))
  loop-exhausted (suc left) attempt e sent errors retried =
      rw
        (step_again (suc left) attempt e (errors attempt) sent
          (retried attempt (omega arith) (omega arith)))
        (subst
          (λ n.
            (loop (suc left) (suc attempt) (errors attempt) (after_request sent attempt)).0
            ≡ err (errors n))
          (omega arith)
          (loop-exhausted left (suc attempt) (errors attempt) (after_request sent attempt) errors
            (λ j from to. retried j (omega (arith, from)) (omega (arith, to)))))

  -- Where the first five attempts all meet errors that are retried, the call ends in the last one.
  pub post_with_retry-exhausted :
      (errors : ℕ → VektorError)
      → ((j : ℕ)
          → j ≤ max_retries
          → judge status_text expected j (server j) ≡ Verdict.again (errors j))
      → (post_with_retry status_text base server expected).0 ≡ err (errors max_retries)
  unfolding post_with_retry verdict loop
  post_with_retry-exhausted errors retried =
      loop-exhausted max_retries 0 _ _ errors (λ j _. retried j)
