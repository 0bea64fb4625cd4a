-- ===== src/Math/Vectors.antt =====
-- include/ccore/math.h: the operations on vectors, in the order of their operations in C.
use ccore.Base.{Bool, ◌||◌, if◌then◌else◌}
use ccore.Base.Doubles.{Doubles}
use ccore.Math.{lerp_f64}

pub record Vec2 (D : Type 0) : Type 0 where
  pub x : D
  pub y : D

pub record Vec3 (D : Type 0) : Type 0 where
  pub x : D
  pub y : D
  pub z : D

module _ {D : Type 0} (fl : Doubles D) where
  -- `CC_VEC2_NULL` and `CC_VEC3_NULL`
  unfoldable pub vec2_null : Vec2 D
  vec2_null = record { x = fl.nan; y = fl.nan }

  unfoldable pub vec3_null : Vec3 D
  vec3_null = record { x = fl.nan; y = fl.nan; z = fl.nan }

  -- `CC_VEC_IS_NULL`
  unfoldable pub vec2_is_null : Vec2 D → Bool
  vec2_is_null v = fl.is_nan v.x

  unfoldable pub vec3_is_null : Vec3 D → Bool
  vec3_is_null v = fl.is_nan v.x

  unfoldable pub vec3_dot : Vec3 D → Vec3 D → D
  vec3_dot a b = fl.add (fl.add (fl.mul a.x b.x) (fl.mul a.y b.y)) (fl.mul a.z b.z)

  unfoldable pub vec3_cross : Vec3 D → Vec3 D → Vec3 D
  vec3_cross a b = record {
    x = fl.sub (fl.mul a.y b.z) (fl.mul a.z b.y);
    y = fl.sub (fl.mul a.z b.x) (fl.mul a.x b.z);
    z = fl.sub (fl.mul a.x b.y) (fl.mul a.y b.x);
  }

  unfoldable pub vec3_sqmag : Vec3 D → D
  vec3_sqmag a = fl.add (fl.add (fl.mul a.x a.x) (fl.mul a.y a.y)) (fl.mul a.z a.z)

  unfoldable pub vec3_mag : Vec3 D → D
  unfolding vec3_sqmag
  vec3_mag a = fl.sqrt (vec3_sqmag a)

  unfoldable pub vec3_add : Vec3 D → Vec3 D → Vec3 D
  vec3_add a b = record { x = fl.add a.x b.x; y = fl.add a.y b.y; z = fl.add a.z b.z }

  unfoldable pub vec3_sub : Vec3 D → Vec3 D → Vec3 D
  vec3_sub a b = record { x = fl.sub a.x b.x; y = fl.sub a.y b.y; z = fl.sub a.z b.z }

  unfoldable pub vec3_mul : Vec3 D → D → Vec3 D
  vec3_mul a b = record { x = fl.mul a.x b; y = fl.mul a.y b; z = fl.mul a.z b }

  unfoldable pub vec3_div : Vec3 D → D → Vec3 D
  vec3_div a b = record { x = fl.div a.x b; y = fl.div a.y b; z = fl.div a.z b }

  -- `m == 0 || fabs(m) < 5 * DBL_EPSILON`
  unfoldable pub too_short : D → Bool
  too_short m = fl.eq m fl.zero || fl.lt (fl.fabs m) fl.small

  unfoldable pub vec3_unit : Vec3 D → Vec3 D
  unfolding vec3_mag too_short vec3_div
  vec3_unit v = let m = vec3_mag v in if too_short m then v else vec3_div v m

  unfoldable pub vec3_lerp : Vec3 D → Vec3 D → D → Vec3 D
  vec3_lerp a b t = record {
    x = lerp_f64 fl a.x b.x t;
    y = lerp_f64 fl a.y b.y t;
    z = lerp_f64 fl a.z b.z t;
  }

  unfoldable pub vec3_angle : Vec3 D → Vec3 D → D
  unfolding vec3_dot vec3_mag
  vec3_angle a b = fl.acos (fl.div (vec3_dot a b) (fl.mul (vec3_mag a) (vec3_mag b)))

  unfoldable pub vec2_hdg_mag : D → D → Vec2 D
  vec2_hdg_mag hdg mag = record { x = fl.mul mag (fl.sin hdg); y = fl.mul mag (fl.cos hdg) }

  unfoldable pub vec2_dot : Vec2 D → Vec2 D → D
  vec2_dot a b = fl.add (fl.mul a.x b.x) (fl.mul a.y b.y)

  unfoldable pub vec2_pdot : Vec2 D → Vec2 D → D
  vec2_pdot a b = fl.sub (fl.mul a.x b.y) (fl.mul a.y b.x)

  unfoldable pub vec2_neg : Vec2 D → Vec2 D
  vec2_neg v = record { x = fl.neg v.x; y = fl.neg v.y }

  unfoldable pub vec2_sqmag : Vec2 D → D
  vec2_sqmag a = fl.add (fl.mul a.x a.x) (fl.mul a.y a.y)

  unfoldable pub vec2_mag : Vec2 D → D
  unfolding vec2_sqmag
  vec2_mag a = fl.sqrt (vec2_sqmag a)

  unfoldable pub vec2_add : Vec2 D → Vec2 D → Vec2 D
  vec2_add a b = record { x = fl.add a.x b.x; y = fl.add a.y b.y }

  unfoldable pub vec2_sub : Vec2 D → Vec2 D → Vec2 D
  vec2_sub a b = record { x = fl.sub a.x b.x; y = fl.sub a.y b.y }

  unfoldable pub vec2_mul : Vec2 D → D → Vec2 D
  vec2_mul a b = record { x = fl.mul a.x b; y = fl.mul a.y b }

  unfoldable pub vec2_div : Vec2 D → D → Vec2 D
  vec2_div a b = record { x = fl.div a.x b; y = fl.div a.y b }

  unfoldable pub vec2_unit : Vec2 D → Vec2 D
  unfolding vec2_mag too_short vec2_div
  vec2_unit v = let m = vec2_mag v in if too_short m then v else vec2_div v m

  unfoldable pub vec2_lerp : Vec2 D → Vec2 D → D → Vec2 D
  vec2_lerp a b t = record { x = lerp_f64 fl a.x b.x t; y = lerp_f64 fl a.y b.y t }

  unfoldable pub vec2_angle : Vec2 D → Vec2 D → D
  unfolding vec2_dot vec2_mag
  vec2_angle a b = fl.acos (fl.div (vec2_dot a b) (fl.mul (vec2_mag a) (vec2_mag b)))
