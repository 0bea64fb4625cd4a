-- ===== src/Base/Toy.antt =====
-- A small arithmetic in place of floats, for the tests: numbers, and a NaN.
use ccore.Base.{
  ℕ, ◌+◌, ◌-◌, ◌*◌, ◌≡◌, refl, Bool, true, false, Option, none, some, ltb, leb, ◌==◌, arith,
}
use ccore.Base.Doubles.{Doubles, PropagatesNan, IsOrder}

abbrev pub lift : (ℕ → ℕ → ℕ) → Option ℕ → Option ℕ → Option ℕ
lift f none y = none
lift f (some x) none = none
lift f (some x) (some y) = some (f x y)

abbrev pub compare_by : (ℕ → ℕ → Bool) → Option ℕ → Option ℕ → Bool
compare_by f none y = false
compare_by f (some x) none = false
compare_by f (some x) (some y) = f x y

abbrev pub is_none : Option ℕ → Bool
is_none none = true
is_none (some x) = false

-- `-x` is 0, and the functions of `<math.h>` leave their argument as it is.
abbrev pub toy : Doubles (Option ℕ)
toy = record {
  zero = some 0;
  one = some 1;
  nan = none;
  add = lift (λ a b. a + b);
  sub = lift (λ a b. a - b);
  mul = lift (λ a b. a * b);
  div = lift (λ a b. a);
  neg = lift (λ a b. 0) (some 0);
  sqrt = λ x. x;
  fabs = λ x. x;
  acos = λ x. x;
  sin = λ x. x;
  cos = λ x. x;
  lt = compare_by ltb;
  le = compare_by leb;
  eq = compare_by (λ a b. a == b);
  is_nan = is_none;
  small = some 0;
}

lift_left : (f : ℕ → ℕ → ℕ) (x y : Option ℕ) → is_none x ≡ true → is_none (lift f x y) ≡ true
lift_left f none y h = refl
lift_left f (some x) y h = cc

lift_right : (f : ℕ → ℕ → ℕ) (x y : Option ℕ) → is_none y ≡ true → is_none (lift f x y) ≡ true
lift_right f none y h = refl
lift_right f (some x) none h = refl
lift_right f (some x) (some y) h = cc

toy_lt_nan : (x y : Option ℕ) → is_none x ≡ true → compare_by ltb y x ≡ false
toy_lt_nan none none h = refl
toy_lt_nan none (some y) h = refl
toy_lt_nan (some x) y h = cc

toy_irrefl : (x : Option ℕ) → compare_by ltb x x ≡ false
toy_irrefl none = refl
toy_irrefl (some x) = ground arith

toy_asym : (x y : Option ℕ) → compare_by ltb x y ≡ true → compare_by ltb y x ≡ false
toy_asym none y h = cc
toy_asym (some x) none h = cc
toy_asym (some x) (some y) h = ground arith

pub toy-PropagatesNan : PropagatesNan toy
toy-PropagatesNan = record {
  nan-IsNan = refl;
  zero-IsNan = refl;
  add_left = lift_left (λ a b. a + b);
  add_right = lift_right (λ a b. a + b);
  mul_left = lift_left (λ a b. a * b);
  mul_right = lift_right (λ a b. a * b);
  lt_nan = toy_lt_nan;
}

pub toy-IsOrder : IsOrder toy
toy-IsOrder = record { lt_irrefl = toy_irrefl; lt_asym = toy_asym }
