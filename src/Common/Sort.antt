-- ===== src/Common/Sort.antt =====
-- `slice::sort_by`, a stable sort, by insertion from the right. The order is the Boolean
-- "not greater" of the comparison.
use Prim.Native.Nat.{suc, Ordering}
use mathlib.Core.Path.{◌≡◌, refl, ap, ◌∙◌}
use mathlib.Core.Logic.{inl, inr}
use mathlib.Core.Bool.{Bool, true, false}
use mathlib.Core.List.{List, [], ◌∷◌, Perm}
use mathlib.Core.List.Perm
use native.Mathlib.Omega.{arith}
use vektor.Common.Tests.{if◌then◌else◌, Bool-cases}
use vektor.Common.Lists.{All, Any, Pairwise, length, All-imp}

-- `Ordering::then_with`, whose second comparison is a value here.
abbrev pub then_with : Ordering → Ordering → Ordering
then_with Ordering.eq next = next
then_with Ordering.lt next = Ordering.lt
then_with Ordering.gt next = Ordering.gt

abbrev pub not_greater : Ordering → Bool
not_greater Ordering.gt = false
not_greater Ordering.eq = true
not_greater Ordering.lt = true

module _ {ℓ} {A : Type ℓ} (cmp : A → A → Ordering) where
  abbrev pub precedes : A → A → Bool
  precedes x y = not_greater (cmp x y)

  unfoldable pub insert_by : A → List A → List A
  insert_by x [] = x ∷ []
  insert_by x (y ∷ ys) = if precedes x y then x ∷ (y ∷ ys) else y ∷ insert_by x ys

  unfoldable pub sort_by : List A → List A
  unfolding insert_by
  sort_by [] = []
  sort_by (x ∷ xs) = insert_by x (sort_by xs)

  abbrev pub IsSorted : List A → Type 0
  IsSorted [] = Unit
  IsSorted (x ∷ xs) = All (λ y. precedes x y ≡ true) xs × IsSorted xs

  pub insert_by-perm : (x : A) (l : List A) → Perm (insert_by x l) (x ∷ l)
  unfolding insert_by
  insert_by-perm x [] = Perm.rfl
  insert_by-perm x (y ∷ ys) = elim (Bool-cases (precedes x y)) [
    | inl e ↦ rw e Perm.rfl
    | inr e ↦ rw e (Perm.trans (Perm.cons y (insert_by-perm x ys)) (Perm.swap x y ys))
  ]

  pub sort_by-perm : (l : List A) → Perm (sort_by l) l
  unfolding sort_by
  sort_by-perm [] = Perm.rfl
  sort_by-perm (x ∷ xs) = Perm.trans (insert_by-perm x (sort_by xs)) (Perm.cons x (sort_by-perm xs))

  pub length-insert_by : (x : A) (l : List A) → length (insert_by x l) ≡ suc (length l)
  unfolding insert_by
  length-insert_by x [] = refl
  length-insert_by x (y ∷ ys) = ground (arith, length-insert_by x ys)

  pub length-sort_by : (l : List A) → length (sort_by l) ≡ length l
  unfolding sort_by
  length-sort_by [] = refl
  length-sort_by (x ∷ xs) = length-insert_by x (sort_by xs) ∙ ap suc (length-sort_by xs)

  module _ (P : A → Type 0) where
    pub All-insert_by : (x : A) (l : List A) → P x → All P l → All P (insert_by x l)
    unfolding insert_by
    All-insert_by x [] h k = (h, tt)
    All-insert_by x (y ∷ ys) h k = elim (Bool-cases (precedes x y)) [
      | inl e ↦ rw e (h, k)
      | inr e ↦ rw e (k.0, All-insert_by x ys h k.1)
    ]

    pub All-sort_by : (l : List A) → All P l → All P (sort_by l)
    unfolding sort_by
    All-sort_by [] h = tt
    All-sort_by (x ∷ xs) h = All-insert_by x (sort_by xs) h.0 (All-sort_by xs h.1)

    Any-insert_by : (x : A) (l : List A) → Any P (x ∷ l) → Any P (insert_by x l)
    unfolding insert_by
    Any-insert_by x [] h = h
    Any-insert_by x (y ∷ ys) h = elim (Bool-cases (precedes x y)) [
      | inl e ↦ rw e h
      | inr e ↦ rw e (elim h [
        | inl p ↦ inr (Any-insert_by x ys (inl p))
        | inr (inl q) ↦ inl q
        | inr (inr r) ↦ inr (Any-insert_by x ys (inr r))
      ])
    ]

    pub Any-sort_by : (l : List A) → Any P l → Any P (sort_by l)
    unfolding sort_by
    Any-sort_by [] h = h
    Any-sort_by (x ∷ xs) (inl h) = Any-insert_by x (sort_by xs) (inl h)
    Any-sort_by (x ∷ xs) (inr h) = Any-insert_by x (sort_by xs) (inr (Any-sort_by xs h))

  -- A symmetric relation between all pairs of elements outlives sorting.
  module _ (R : A → A → Type 0) (symm : (x y : A) → R x y → R y x) where
    insert_by-Pairwise :
        (x : A) (l : List A) → All (R x) l → Pairwise R l → Pairwise R (insert_by x l)
    unfolding insert_by
    insert_by-Pairwise x [] h p = (tt, tt)
    insert_by-Pairwise x (y ∷ ys) h p = elim (Bool-cases (precedes x y)) [
      | inl e ↦ rw e (h, p)
      | inr e ↦ rw e (All-insert_by (R y) x ys (symm x y h.0) p.0, insert_by-Pairwise x ys h.1 p.1)
    ]

    pub sort_by-Pairwise : (l : List A) → Pairwise R l → Pairwise R (sort_by l)
    unfolding sort_by
    sort_by-Pairwise [] p = tt
    sort_by-Pairwise (x ∷ xs) p =
        insert_by-Pairwise x (sort_by xs) (All-sort_by (R x) xs p.0) (sort_by-Pairwise xs p.1)

  -- The result ascends where the comparison is total and transitive.
  module _ (total : (x y : A) → precedes x y ≡ false → precedes y x ≡ true)
      (trans : (x y z : A) → precedes x y ≡ true → precedes y z ≡ true → precedes x z ≡ true) where
    insert_by-IsSorted : (x : A) (l : List A) → IsSorted l → IsSorted (insert_by x l)
    unfolding insert_by
    insert_by-IsSorted x [] s = (tt, tt)
    insert_by-IsSorted x (y ∷ ys) s = elim (Bool-cases (precedes x y)) [
      | inl e ↦ rw e (
        (
          e,
          All-imp (λ z. precedes y z ≡ true) (λ z. precedes x z ≡ true) (λ z. trans x y z e) ys s.0,
        ),
        s,
      )
      | inr e ↦ rw e (
        All-insert_by (λ z. precedes y z ≡ true) x ys (total x y e) s.0,
        insert_by-IsSorted x ys s.1,
      )
    ]

    pub sort_by-IsSorted : (l : List A) → IsSorted (sort_by l)
    unfolding sort_by
    sort_by-IsSorted [] = tt
    sort_by-IsSorted (x ∷ xs) = insert_by-IsSorted x (sort_by xs) (sort_by-IsSorted xs)
