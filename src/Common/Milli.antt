-- ===== src/Common/Milli.antt =====
-- Numbers in thousandths, with the operations and the laws of `Float`: the model in which the
-- theorems are run.
use Prim.Native.Nat.{ℕ, ◌+◌, ◌*◌, ◌/◌, ◌%◌, ◌≤◌, ◌<◌, compare, min, max}
use mathlib.Core.Bool.{true}
use native.Mathlib.Omega.{arith}
use native.Mathlib.Nat
use mathlib.Core.List.{◌∷◌, ◌++◌}
use vektor.Common.Tests.{ltb, leb, lt→ltb, leb→le}
use vektor.Common.Text.{decimal}
use vektor.Common.Float.{FloatOps, IsTotalOrder, IsMonotone}

instance abbrev pub milli : FloatOps ℕ
milli = record {
  literal = λ m n. m * 1000 / n;
  add = λ a b. a + b;
  mul = λ a b. a * b / 1000;
  div = λ a b. a * 1000 / b;
  fmax = max;
  clamp = λ x lo hi. min hi (max lo x);
  lt = ltb;
  le = leb;
  total_cmp = compare;
  is_finite = λ x. true;
  greatest = 2 * 1000;
  from_usize = λ n. n * 1000;
  ceil = λ a. (a + 999) / 1000;
  round = λ a. (a + 500) / 1000 * 1000;
  show_tenths = λ a. decimal (a / 1000) ++ (b'.' ∷ decimal (a / 100 % 10));
}

pub milli-IsTotalOrder : IsTotalOrder (compare)
milli-IsTotalOrder = record {
  total = λ x y h. ground arith;
  trans = λ x y z h k. ground arith;
  eq_symm = λ x y h. ground arith;
}

div_mono : (a b : ℕ) → a ≤ b → a / 1000 ≤ b / 1000
div_mono a b h = omega arith

cross_mono : (k m n m' n' : ℕ) → k * n ≤ m * 1000 → m * n' ≤ m' * n → k * n' * n ≤ m' * 1000 * n
cross_mono k m n m' n' low h =
    let a : k * n * n' ≤ m * 1000 * n' = Nat.mul-le-mul_right n' low in omega arith

literal_mono : (m n m' n' : ℕ) → 0 < n → 0 < n' → m * n' ≤ m' * n → m * 1000 / n ≤ m' * 1000 / n'
literal_mono m n m' n' p q h =
    (Nat.le-div_iff_mul-le q).1
      (Nat.le_of_mul-le-mul_right (cross_mono _ m n m' n' (Nat.div-mul-le_self (m * 1000) n) h) p)

pub milli-IsMonotone : IsMonotone milli
milli-IsMonotone = record {
  literal_le = λ m n m' n' p q h. ground (arith, literal_mono m n m' n' p q h);
  literal_pos = λ m n p h. lt→ltb _ _ ((Nat.le-div_iff_mul-le p).1 (omega arith));
  mul_le = λ b x y p q h.
      ground (arith, div_mono (b * x) (b * y) (Nat.mul-le-mul_left b (leb→le x y h)));
  mul_one = λ b. Nat.mul-div_cancel b (omega arith);
}
