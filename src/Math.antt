-- ===== src/Math.antt =====
-- include/ccore/math.h: the functions on numbers. A `uint32_t` is a number below `2^32`, and an
-- `int32_t` is its 32-bit pattern. `float` and `double` differ only in their arithmetic, which is an
-- argument (`Base.Doubles`), so a function on them stands for both.
pub mod Clamp
pub mod Intersect
mod Tests
pub mod Vectors
use ccore.Base.{ℕ, ◌+◌, ◌%◌, ◌^◌, Bool, ltb, if◌then◌else◌}
use ccore.Base.Doubles.{Doubles}

abbrev pub word : ℕ
word = 2 ^ 32

-- `a < b` on `int32_t`: the sign bit is turned over, and the patterns are compared.
unfoldable pub lt_i32 : ℕ → ℕ → Bool
lt_i32 a b = ltb ((a + 2 ^ 31) % word) ((b + 2 ^ 31) % word)

unfoldable pub max_u32 : ℕ → ℕ → ℕ
max_u32 a b = if ltb b a then a else b

unfoldable pub min_u32 : ℕ → ℕ → ℕ
min_u32 a b = if ltb a b then a else b

unfoldable pub max_i32 : ℕ → ℕ → ℕ
unfolding lt_i32
max_i32 a b = if lt_i32 b a then a else b

unfoldable pub min_i32 : ℕ → ℕ → ℕ
unfolding lt_i32
min_i32 a b = if lt_i32 a b then a else b

unfoldable pub clamp_u32 : ℕ → ℕ → ℕ → ℕ
clamp_u32 v lo hi = if ltb lo v then (if ltb v hi then v else hi) else lo

unfoldable pub clamp_i32 : ℕ → ℕ → ℕ → ℕ
unfolding lt_i32
clamp_i32 v lo hi = if lt_i32 lo v then (if lt_i32 v hi then v else hi) else lo

module _ {D : Type 0} (fl : Doubles D) where
  unfoldable pub max_f64 : D → D → D
  max_f64 a b = if fl.lt b a then a else b

  unfoldable pub min_f64 : D → D → D
  min_f64 a b = if fl.lt a b then a else b

  unfoldable pub clamp_f64 : D → D → D → D
  clamp_f64 v lo hi = if fl.lt lo v then (if fl.lt v hi then v else hi) else lo

  unfoldable pub lerp_f64 : D → D → D → D
  lerp_f64 a b t = fl.add (fl.mul a (fl.sub fl.one t)) (fl.mul b t)
