-- ===== src/Common/Outcome.antt =====
-- src/error.rs: the error type and the `Result` that fallible operations return.
use mathlib.Core.Path.{◌≡◌, refl}
use mathlib.Core.Logic.{◌⊎◌, inl, inr}
use vektor.Common.Text.{Text}

-- The payloads of foreign error types are their texts.
pub data VektorError : Type 0 where
  io : Text → VektorError
  config : Text → VektorError
  not_implemented : Text → VektorError
  parse : Text → VektorError
  state : Text → VektorError
  mcp : Text → VektorError
  embedding : Text → VektorError
  storage : Text → VektorError
  network : Text → VektorError
  download : Text → VektorError

pub data Result {ℓ} (A : Type ℓ) : Type ℓ where
  ok : A → Result A
  err : VektorError → Result A

infixl 5 ◌>>=◌
abbrev pub ◌>>=◌ {ℓ κ} : {A : Type ℓ} {B : Type κ} → Result A → (A → Result B) → Result B
ok a >>= f = f a
err e >>= f = err e

-- Inversion of a successful bind.
pub >>=-eq-ok {ℓ κ} :
    {A : Type ℓ} {B : Type κ} (run : Result A) (next : A → Result B) {last : B}
    → (run >>= next) ≡ ok last
    → (value : A) × (run ≡ ok value) × (next value ≡ ok last)
>>=-eq-ok (err problem) next done = cc
>>=-eq-ok (ok value) next done = (value, refl, done)

-- A property of the value, where there is one.
abbrev pub OnOk {ℓ} : {A : Type ℓ} → (A → Type 0) → Result A → Type 0
OnOk P (ok a) = P a
OnOk P (err e) = Unit

pub OnOk-of {ℓ} :
    {A : Type ℓ} (P : A → Type 0) (m : Result A) → ((a : A) → m ≡ ok a → P a) → OnOk P m
OnOk-of P (ok a) h = h a refl
OnOk-of P (err e) h = tt

pub Result-cases {ℓ} :
    {A : Type ℓ} (r : Result A) → ((a : A) × (r ≡ ok a)) ⊎ ((e : VektorError) × (r ≡ err e))
Result-cases (ok a) = inl (a, refl)
Result-cases (err e) = inr (e, refl)
