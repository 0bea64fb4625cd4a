-- ===== src/Math/Tests.antt =====
-- The functions on numbers and the two searches at small inputs, with the toy arithmetic.
use ccore.Base.{ℕ, ◌≡◌, refl, true, false, Option, none, some, [], ◌∷◌, length, arith}
use ccore.Base.Toy.{toy}
use ccore.Math.{lt_i32, max_i32, min_i32, clamp_u32, clamp_i32}
use ccore.Math.Clamp.{clamp_i32-max-min}
use ccore.Math.Vectors.{Vec2, Vec3}
use ccore.Math.Intersect.{vec3_int_sph}
use ccore.Math.Intersect.Hits.{vec3_int_sph-hits, hits, pair_of}

-- `-7`, and bounds of `-5` and 5.
abbrev minus_seven : ℕ
minus_seven = 4294967289

abbrev minus_five : ℕ
minus_five = 4294967291

signed_bounds : lt_i32 5 minus_five ≡ false
unfolding lt_i32
signed_bounds = refl

clamps_up : clamp_i32 minus_seven minus_five 5 ≡ minus_five
unfolding clamp_i32 lt_i32
clamps_up = refl

-- Compared as patterns, `-7` is above 5.
clamps_down : clamp_u32 minus_seven 0 5 ≡ 5
unfolding clamp_u32
clamps_down = refl

abbrev number : ℕ → ℕ → ℕ → Vec3 (Option ℕ)
number x y z = record { x = some x; y = some y; z = some z }

clamp_i32-max-min_example :
    (clamp_i32 minus_seven minus_five 5 ≡ max_i32 minus_five (min_i32 minus_seven 5))
    × (clamp_i32 minus_seven minus_five 5 ≡ min_i32 5 (max_i32 minus_seven minus_five))
    × (lt_i32 (clamp_i32 minus_seven minus_five 5) minus_five ≡ false)
    × (lt_i32 5 (clamp_i32 minus_seven minus_five 5) ≡ false)
clamp_i32-max-min_example =
    clamp_i32-max-min minus_seven minus_five 5 (omega arith) (omega arith) (omega arith)
      signed_bounds

vec3_int_sph-hits_example :
    (vec3_int_sph toy
        (number 5 0 0)
        (number 1 0 0)
        (number 3 0 0)
        (some 2)
        true
        (some (number 0 0 0 ∷ number 0 0 0 ∷ []))
      ≡ (
        length (hits toy (number 5 0 0) (number 1 0 0) (number 3 0 0) (some 2) true),
        some (
            pair_of toy
              (number 5 0 0)
              (number 1 0 0)
              (number 3 0 0)
              (some 2)
              true
              (hits toy (number 5 0 0) (number 1 0 0) (number 3 0 0) (some 2) true)),
      ))
    × (vec3_int_sph toy (number 5 0 0) (number 1 0 0) (number 3 0 0) (some 2) true none
        ≡ (length (hits toy (number 5 0 0) (number 1 0 0) (number 3 0 0) (some 2) true), none))
vec3_int_sph-hits_example =
    vec3_int_sph-hits toy (number 5 0 0) (number 1 0 0) (number 3 0 0) (some 2) true (number 0 0 0)
      (number 0 0 0)

abbrev nowhere : Vec2 (Option ℕ)
nowhere = record { x = none; y = some 0 }

abbrev point : ℕ → ℕ → Vec2 (Option ℕ)
point x y = record { x = some x; y = some y }
