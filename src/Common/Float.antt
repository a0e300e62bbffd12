-- ===== src/Common/Float.antt =====
-- The floating-point operations that the program uses, for `f32` and for `f64`. Their arithmetic is
-- not computed here: a type with these operations is a parameter, and a theorem that needs a law of
-- them takes it as a hypothesis.
use Prim.Native.Nat.{ℕ, Ordering, ◌*◌, ◌≤◌, ◌<◌}
use mathlib.Core.Bool.{Bool, true, false}
use mathlib.Core.Path.{◌≡◌}
use vektor.Common.Sort.{precedes}
use vektor.Common.Text.{Text}

pub record FloatOps (F : Type 0) : Type 0 where
  -- `literal m n` is the float that the decimal m / n is read as.
  pub literal : ℕ → ℕ → F
  pub add : F → F → F
  pub mul : F → F → F
  pub div : F → F → F
  pub fmax : F → F → F
  pub clamp : F → F → F → F
  -- `<` and `<=`; both are false at a NaN.
  pub lt : F → F → Bool
  pub le : F → F → Bool
  pub total_cmp : F → F → Ordering
  pub is_finite : F → Bool
  -- `f32::MAX`.
  pub greatest : F
  -- `n as f64`, `x.ceil() as usize`, and `x.round()`.
  pub from_usize : ℕ → F
  pub ceil : F → ℕ
  pub round : F → F
  -- `format!("{x:.1}")`.
  pub show_tenths : F → Text

-- `f32::total_cmp` is documented as a total order.
pub record IsTotalOrder {A : Type 0} (cmp : A → A → Ordering) : Type 0 where
  pub total : (x y : A) → precedes cmp x y ≡ false → precedes cmp y x ≡ true
  pub trans :
      (x y z : A) → precedes cmp x y ≡ true → precedes cmp y z ≡ true → precedes cmp x z ≡ true
  pub eq_symm : (x y : A) → cmp x y ≡ Ordering.eq → cmp y x ≡ Ordering.eq

-- What IEEE arithmetic gives for positive factors and for decimal literals.
pub record IsMonotone {F : Type 0} (f : FloatOps F) : Type 0 where
  pub literal_le :
      (m n m' n' : ℕ)
      → 0 < n
      → 0 < n'
      → m * n' ≤ m' * n
      → f.le (f.literal m n) (f.literal m' n') ≡ true
  -- No literal of the program underflows.
  pub literal_pos : (m n : ℕ) → 0 < n → n ≤ m * 1000 → f.lt (f.literal 0 1) (f.literal m n) ≡ true
  pub mul_le :
      (b x y : F)
      → f.lt (f.literal 0 1) b ≡ true
      → f.lt (f.literal 0 1) x ≡ true
      → f.le x y ≡ true
      → f.le (f.mul b x) (f.mul b y) ≡ true
  pub mul_one : (b : F) → f.mul b (f.literal 10 10) ≡ b
