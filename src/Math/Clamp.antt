-- ===== src/Math/Clamp.antt =====
-- What the functions on numbers promise, on words with and without a sign, and on floats.
use ccore.Base.{ℕ, ◌+◌, ◌%◌, ◌^◌, ◌≤◌, ◌<◌, ◌≡◌, false, ltb, arith}
use ccore.Base.Doubles.{Doubles, IsOrder}
use ccore.Math.{word, lt_i32, max_u32, min_u32, max_i32, min_i32, clamp_u32, clamp_i32, clamp_f64}

-- With bounds in order, `clamp_u32` is the greater of the lower bound and of the lesser of the value
-- and the upper bound, and the other way round, and it lies between the bounds.
clamp_u32-max-min :
    (v lo hi : ℕ)
    → lo ≤ hi
    → (clamp_u32 v lo hi ≡ max_u32 lo (min_u32 v hi))
      × (clamp_u32 v lo hi ≡ min_u32 hi (max_u32 v lo))
      × (lo ≤ clamp_u32 v lo hi)
      × (clamp_u32 v lo hi ≤ hi)
unfolding clamp_u32 max_u32 min_u32
clamp_u32-max-min v lo hi h = ground arith

-- With 32-bit arguments and bounds in order, in the order of numbers with a sign: `clamp_i32` is the
-- greater of the lower bound and of the lesser of the value and the upper bound, and the other way
-- round, and it lies between the bounds.
pub clamp_i32-max-min :
    (v lo hi : ℕ)
    → v < word
    → lo < word
    → hi < word
    → lt_i32 hi lo ≡ false
    → (clamp_i32 v lo hi ≡ max_i32 lo (min_i32 v hi))
      × (clamp_i32 v lo hi ≡ min_i32 hi (max_i32 v lo))
      × (lt_i32 (clamp_i32 v lo hi) lo ≡ false)
      × (lt_i32 hi (clamp_i32 v lo hi) ≡ false)
unfolding clamp_i32 max_i32 min_i32 lt_i32
clamp_i32-max-min v lo hi v_fits lo_fits hi_fits h = ground arith

-- The pattern of a number with a sign: `x` from `-2^31` to `2^31 - 1` stands as `x + 2^31`.
abbrev pattern : ℕ → ℕ
pattern x = (x + 2 ^ 31) % word

-- Patterns are in the order of their numbers.
lt_i32-pattern : (x y : ℕ) → x < word → y < word → lt_i32 (pattern x) (pattern y) ≡ ltb x y
unfolding lt_i32
lt_i32-pattern x y p q = ground arith

module _ {D : Type 0} (fl : Doubles D) (order : IsOrder fl) where
  -- Whatever is clamped, a NaN included, the result is not outside of bounds that are in order.
  pub clamp_f64_bounds :
      (v lo hi : D)
      → fl.lt hi lo ≡ false
      → (fl.lt (clamp_f64 fl v lo hi) lo ≡ false) × (fl.lt hi (clamp_f64 fl v lo hi) ≡ false)
  unfolding clamp_f64
  clamp_f64_bounds v lo hi h =
      ground (arith, order.lt_irrefl lo, order.lt_irrefl hi, order.lt_asym lo v, order.lt_asym v hi)
