-- ===== src/Base/Doubles.antt =====
-- The arithmetic of one of C's floating-point types, as the compiler and `<math.h>` give it, over
-- any type `D`, and the rules of IEEE 754 that the code relies on.
use mathlib.Core.Bool.{Bool, true, false}
use mathlib.Core.Path.{◌≡◌}

pub record Doubles (D : Type 0) : Type 0 where
  pub zero : D
  pub one : D
  pub nan : D
  pub add : D → D → D
  pub sub : D → D → D
  pub mul : D → D → D
  pub div : D → D → D
  pub neg : D → D
  pub sqrt : D → D
  pub fabs : D → D
  pub acos : D → D
  pub sin : D → D
  pub cos : D → D
  -- `a < b`, `a <= b` and `a == b`
  pub lt : D → D → Bool
  pub le : D → D → Bool
  pub eq : D → D → Bool
  pub is_nan : D → Bool
  -- `5 * DBL_EPSILON`
  pub small : D

-- A NaN comes out of every sum and product that it goes into, and no order holds of it.
pub record PropagatesNan {D : Type 0} (fl : Doubles D) : Type 0 where
  pub nan-IsNan : fl.is_nan fl.nan ≡ true
  pub zero-IsNan : fl.is_nan fl.zero ≡ false
  pub add_left : (x y : D) → fl.is_nan x ≡ true → fl.is_nan (fl.add x y) ≡ true
  pub add_right : (x y : D) → fl.is_nan y ≡ true → fl.is_nan (fl.add x y) ≡ true
  pub mul_left : (x y : D) → fl.is_nan x ≡ true → fl.is_nan (fl.mul x y) ≡ true
  pub mul_right : (x y : D) → fl.is_nan y ≡ true → fl.is_nan (fl.mul x y) ≡ true
  pub lt_nan : (x y : D) → fl.is_nan x ≡ true → fl.lt y x ≡ false

-- The order is strict.
pub record IsOrder {D : Type 0} (fl : Doubles D) : Type 0 where
  pub lt_irrefl : (x : D) → fl.lt x x ≡ false
  pub lt_asym : (x y : D) → fl.lt x y ≡ true → fl.lt y x ≡ false
