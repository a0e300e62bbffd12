-- ===== src/Common/Action.antt =====
-- Operations that change a state and may fail: the state comes back after an error too, since what
-- was written stays written (the `&mut self` methods of src/ that return a `Result`).
use mathlib.Core.Path.{◌≡◌, refl}
use mathlib.Core.List.{List, [], ◌∷◌}
use mathlib.Core.Bool.{Bool, true, false}
use vektor.Common.Tests.{if◌then◌else◌}
use vektor.Common.Outcome.{Result, ok, err, VektorError}

abbrev pub Action : Type 0 → Type 0 → Type 0
Action S A = S → Result A × S

module _ {S : Type 0} where
  abbrev pub pure : {A : Type 0} → A → Action S A
  pure a s = (ok a, s)

  -- The `?` after a call that changes nothing.
  abbrev pub lift : {A : Type 0} → Result A → Action S A
  lift r s = (r, s)

  abbrev pub gets : {A : Type 0} → (S → A) → Action S A
  gets f s = (ok (f s), s)

  abbrev pub modify : (S → S) → Action S Unit
  modify f s = (ok tt, f s)

  -- What follows a call that has ended.
  unfoldable pub after : {A B : Type 0} → (A → Action S B) → Result A × S → Result B × S
  after f (ok a, s) = f a s
  after f (err e, s) = (err e, s)

  -- A call whose error is handled where it is made.
  unfoldable pub attempt : {A : Type 0} → Action S A → Action S (Result A)
  attempt m s = let (r, s') = m s in (ok r, s')

-- A `match` on a result.
unfoldable pub match_result :
    {S A B : Type 0} → Result A → (A → Action S B) → (VektorError → Action S B) → Action S B
match_result (ok a) good bad = good a
match_result (err e) good bad = bad e

infixl 5 ◌>>=◌ ◌>>◌
unfoldable pub ◌>>=◌ : {S A B : Type 0} → Action S A → (A → Action S B) → Action S B
unfolding after
◌>>=◌ m f s = after f (m s)

abbrev pub ◌>>◌ : {S A B : Type 0} → Action S A → Action S B → Action S B
m >> k = m >>= λ _. k

-- A `for` loop whose body may return early.
unfoldable pub for_each : {S A : Type 0} → (A → Action S Unit) → List A → Action S Unit
for_each body [] = pure tt
for_each body (x ∷ xs) = body x >>= λ _. for_each body xs

-- What holds after a call, by how it ended.
abbrev pub Ends : {S A : Type 0} → (A → S → Type 0) → (S → Type 0) → Result A × S → Type 0
Ends Q R (ok a, s) = Q a s
Ends Q R (err e, s) = R s

-- A call that starts where `P` holds.
abbrev pub Triple :
    {S A : Type 0} → (S → Type 0) → Action S A → (A → S → Type 0) → (S → Type 0) → Type 0
Triple P m Q R = (s : _) → P s → Ends Q R (m s)

module _ {S A : Type 0} where
  Ends-after :
      {B : Type 0} (Q : A → S → Type 0) (Q' : B → S → Type 0) (R : S → Type 0) (f : A → Action S B)
      (out : Result A × S)
      → ((a : A) (s : S) → Q a s → Ends Q' R (f a s))
      → Ends Q R out
      → Ends Q' R (after f out)
  unfolding after
  Ends-after Q Q' R f (ok a, s) next h = next a s h
  Ends-after Q Q' R f (err e, s) next h = h

  pub Ends-attempt :
      (Q : A → S → Type 0) (R : S → Type 0) (Q' : Result A → S → Type 0) (R' : S → Type 0)
      (out : Result A × S)
      → ((a : A) (s : S) → Q a s → Q' (ok a) s)
      → ((e : VektorError) (s : S) → R s → Q' (err e) s)
      → Ends Q R out
      → Ends Q' R' (ok out.0, out.1)
  unfolding after
  Ends-attempt Q R Q' R' (ok a, s) good bad h = good a s h
  Ends-attempt Q R Q' R' (err e, s) good bad h = bad e s h

  pub Ends-imp :
      (Q Q' : A → S → Type 0) (R R' : S → Type 0) (out : Result A × S)
      → ((a : A) (s : S) → Q a s → Q' a s)
      → ((s : S) → R s → R' s)
      → Ends Q R out
      → Ends Q' R' out
  unfolding after
  Ends-imp Q Q' R R' (ok a, s) good bad h = good a s h
  Ends-imp Q Q' R R' (err e, s) good bad h = bad s h

  -- Sequencing: the first call establishes what the second needs.
  pub Triple-bind :
      {B : Type 0} (P : S → Type 0) (Q : A → S → Type 0) (Q' : B → S → Type 0) (R : S → Type 0)
      (m : Action S A) (f : A → Action S B)
      → Triple P m Q R
      → ((a : A) → Triple (Q a) (f a) Q' R)
      → Triple P (m >>= f) Q' R
  unfolding ◌>>=◌ after for_each
  Triple-bind P Q Q' R m f first next s h = Ends-after Q Q' R f (m s) next (first s h)

module _ {S A : Type 0} where
  -- A loop keeps what each of its rounds keeps.
  pub Triple-for_each :
      (P : S → Type 0) (body : A → Action S Unit)
      → ((x : A) → Triple P (body x) (λ _. P) P)
      → (xs : List A) → Triple P (for_each body xs) (λ _. P) P
  unfolding ◌>>=◌ after for_each
  Triple-for_each P body each [] s h = h
  Triple-for_each P body each (x ∷ xs) s h =
      Triple-bind P (λ _. P) (λ _. P) P (body x) (λ _. for_each body xs) (each x)
        (λ _. Triple-for_each P body each xs) s h

-- What a call keeps, however it ends.
unfoldable pub Keeps : {S A : Type 0} → (S → Type 0) → Action S A → Type 0
Keeps P m = (s : _) → P s → P (m s).1

module _ {S : Type 0} (P : S → Type 0) where
  after-Keeps :
      {A B : Type 0} (f : A → Action S B) (out : Result A × S)
      → P out.1
      → ((a : A) → Keeps P (f a))
      → P (after f out).1
  unfolding after Keeps
  after-Keeps f (ok a, s) h next = next a s h
  after-Keeps f (err e, s) h next = h

  pub Keeps-bind :
      {A B : Type 0} (m : Action S A) (f : A → Action S B)
      → Keeps P m
      → ((a : A) → Keeps P (f a))
      → Keeps P (m >>= f)
  unfolding ◌>>=◌ Keeps
  Keeps-bind m f first next s h = after-Keeps f (m s) (first s h) next

  pub gets-Keeps : {A : Type 0} (f : S → A) → Keeps P (gets f)
  unfolding Keeps
  gets-Keeps f s h = h

  pub Keeps-attempt : {A : Type 0} (m : Action S A) → Keeps P m → Keeps P (attempt m)
  unfolding attempt Keeps
  Keeps-attempt m first s h = first s h

  pub Keeps-match :
      {A B : Type 0} (r : Result A) (good : A → Action S B) (bad : VektorError → Action S B)
      → ((a : A) → Keeps P (good a))
      → ((e : VektorError) → Keeps P (bad e))
      → Keeps P (match_result r good bad)
  unfolding match_result
  Keeps-match (ok a) good bad h k = h a
  Keeps-match (err e) good bad h k = k e

  pub Keeps-if :
      {A : Type 0} (b : Bool) (first second : Action S A)
      → Keeps P first
      → Keeps P second
      → Keeps P (if b then first else second)
  Keeps-if true first second h k = h
  Keeps-if false first second h k = k

  pub Keeps-for_each :
      {A : Type 0} (body : A → Action S Unit)
      → ((x : A) → Keeps P (body x))
      → (xs : List A) → Keeps P (for_each body xs)
  unfolding for_each Keeps
  Keeps-for_each body each [] = λ s h. h
  Keeps-for_each body each (x ∷ xs) =
      Keeps-bind (body x) (λ _. for_each body xs) (each x) (λ _. Keeps-for_each body each xs)

-- What a call gives where it succeeds.
unfoldable pub Gives : {S A : Type 0} → (S → Type 0) → Action S A → (A → S → Type 0) → Type 0
Gives P m Q = (s : _) → P s → Ends Q (λ _. Unit {0}) (m s)

module _ {S : Type 0} where
  Ends-next :
      {A B : Type 0} (Q : A → S → Type 0) (Q' : B → S → Type 0) (f : A → Action S B)
      (out : Result A × S)
      → ((a : A) → Gives (Q a) (f a) Q')
      → Ends Q (λ _. Unit {0}) out
      → Ends Q' (λ _. Unit {0}) (after f out)
  unfolding after Gives
  Ends-next Q Q' f (ok a, s) next h = next a s h
  Ends-next Q Q' f (err e, s) next h = tt

  pub Gives-bind :
      {A B : Type 0} (P : S → Type 0) (Q : A → S → Type 0) (Q' : B → S → Type 0) (m : Action S A)
      (f : A → Action S B)
      → Gives P m Q
      → ((a : A) → Gives (Q a) (f a) Q')
      → Gives P (m >>= f) Q'
  unfolding ◌>>=◌ Gives
  Gives-bind P Q Q' m f first next s h = Ends-next Q Q' f (m s) next (first s h)

  Ends-kept :
      {A : Type 0} (P : S → Type 0) (r : Result A) (s : S)
      → P s
      → Ends (λ _. P) (λ _. Unit {0}) (r, s)
  Ends-kept P (ok a) s h = h
  Ends-kept P (err e) s h = tt

  pub Gives-kept :
      {A : Type 0} (P P' : S → Type 0) (m : Action S A)
      → ((s : S) → P s → P' (m s).1)
      → Gives P m (λ _. P')
  unfolding Gives
  Gives-kept P P' m keeps s h = Ends-kept P' (m s).0 (m s).1 (keeps s h)

  pub Gives-match :
      {A B : Type 0} (P : S → Type 0) (Q : B → S → Type 0) (r : Result A) (good : A → Action S B)
      (bad : VektorError → Action S B)
      → ((a : A) → Gives P (good a) Q)
      → ((e : VektorError) → Gives P (bad e) Q)
      → Gives P (match_result r good bad) Q
  unfolding match_result
  Gives-match P Q (ok a) good bad h k = h a
  Gives-match P Q (err e) good bad h k = k e

  pub Gives-if :
      {A : Type 0} (P : S → Type 0) (Q : A → S → Type 0) (b : Bool) (first second : Action S A)
      → (b ≡ true → Gives P first Q)
      → (b ≡ false → Gives P second Q)
      → Gives P (if b then first else second) Q
  Gives-if P Q true first second h k = h refl
  Gives-if P Q false first second h k = k refl

  -- A loop, by an invariant of the elements that are left.
  pub Gives-for_each :
      {A : Type 0} (Left : List A → S → Type 0) (body : A → Action S Unit)
      → ((x : A) (xs : List A) → Gives (Left (x ∷ xs)) (body x) (λ _. Left xs))
      → (xs : List A) → Gives (Left xs) (for_each body xs) (λ _. Left [])
  unfolding for_each Gives
  Gives-for_each Left body each [] = λ s h. h
  Gives-for_each Left body each (x ∷ xs) =
      Gives-bind (Left (x ∷ xs)) (λ _. Left xs) (λ _. Left []) (body x) (λ _. for_each body xs)
        (each x xs) (λ _. Gives-for_each Left body each xs)

  pub Gives-imp :
      {A : Type 0} (P : S → Type 0) (Q Q' : A → S → Type 0) (m : Action S A)
      → ((a : A) (s : S) → Q a s → Q' a s)
      → Gives P m Q
      → Gives P m Q'
  unfolding Gives
  Gives-imp P Q Q' m imp gives s h =
      Ends-imp Q Q' (λ _. Unit {0}) (λ _. Unit {0}) (m s) imp (λ _ k. k) (gives s h)

  pub Gives-pre :
      {A : Type 0} (P P' : S → Type 0) (Q : A → S → Type 0) (m : Action S A)
      → ((s : S) → P' s → P s)
      → Gives P m Q
      → Gives P' m Q
  unfolding Gives
  Gives-pre P P' Q m imp gives s h = gives s (imp s h)
