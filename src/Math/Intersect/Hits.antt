-- ===== src/Math/Intersect/Hits.antt =====
-- What the two searches of src/math.c return.
use ccore.Base.{
  ◌≡◌, ◌&&◌, ◌||◌, not, Bool, true, false, none, some, List, [], ◌∷◌, if◌then◌else◌, length, arith,
}
use ccore.Base.Doubles.{Doubles, PropagatesNan}
use ccore.Math.Vectors.{
  Vec2, Vec3, vec2_null, vec3_null, vec3_unit, vec3_mag, vec3_sub, vec3_dot, vec3_sqmag, vec3_add,
  vec3_mul, vec3_div, too_short, vec2_add, vec2_mul, vec2_is_null, vec2_sub, vec2_pdot,
}
use ccore.Math.Intersect.{
  pow2, accepted, write_hit, roots_loop, solve, cleared, vec3_int_sph, vec2_int_vec2,
}

module _ {D : Type 0} (fl : Doubles D) (o v c : Vec3 D) (r : D) (confined : Bool) where
  -- The geometry: the distances along the unit vector `u` of `v` at which the line from `o` meets
  -- the sphere around `c`.
  abbrev pub dot : D → D → D → D → D → D → D
  dot x y z x' y' z' = fl.add (fl.add (fl.mul x x') (fl.mul y y')) (fl.mul z z')

  -- The length of `v`, and its direction: `v` itself where it is next to 0.
  abbrev pub reach : D
  reach = fl.sqrt (dot v.x v.y v.z v.x v.y v.z)

  abbrev pub per_reach : D → D
  per_reach component =
      if fl.eq reach fl.zero || fl.lt (fl.fabs reach) fl.small
      then component
      else fl.div component reach

  abbrev pub along : D
  along =
      dot (per_reach v.x) (per_reach v.y) (per_reach v.z) (fl.sub o.x c.x) (fl.sub o.y c.y)
        (fl.sub o.z c.z)

  -- The square of the distance from `c` to `o`.
  abbrev pub apart : D
  apart =
      dot (fl.sub o.x c.x) (fl.sub o.y c.y) (fl.sub o.z c.z) (fl.sub o.x c.x) (fl.sub o.y c.y)
        (fl.sub o.z c.z)

  abbrev pub discriminant : D
  discriminant = fl.add (fl.sub (fl.mul along along) apart) (fl.mul r r)

  abbrev pub root : D → D
  root sign = fl.add (fl.neg along) (fl.mul sign (fl.sqrt discriminant))

  abbrev pub roots_for : Bool → Bool → List D
  roots_for true double_root = []
  roots_for false true = fl.neg along ∷ []
  roots_for false false = root (fl.neg fl.one) ∷ root fl.one ∷ []

  abbrev pub keep : (D → Bool) → List D → List D
  keep test [] = []
  keep test (d ∷ ds) = if test d then d ∷ keep test ds else keep test ds

  -- Those of them that count: all, or those within the length of `v`.
  abbrev pub hits : List D
  hits =
      keep (λ (d : D). not confined || (fl.le fl.zero d && fl.le d reach))
        (roots_for (fl.lt discriminant fl.zero) (fl.eq discriminant fl.zero))

  abbrev pub point_at : D → Vec3 D
  point_at d = record {
    x = fl.add o.x (fl.mul (per_reach v.x) d);
    y = fl.add o.y (fl.mul (per_reach v.y) d);
    z = fl.add o.z (fl.mul (per_reach v.z) d);
  }

  abbrev pub nowhere : Vec3 D
  nowhere = record { x = fl.nan; y = fl.nan; z = fl.nan }

  abbrev pub pair_of : List D → List (Vec3 D)
  pair_of [] = nowhere ∷ nowhere ∷ []
  pair_of (d ∷ []) = point_at d ∷ nowhere ∷ []
  pair_of (d ∷ e ∷ ds) = point_at d ∷ point_at e ∷ []

  -- `vec3_int_sph` returns the number of the hits: with `along` the coordinate of `o - c` along the
  -- direction of `v`, these are the distances `- along - s` and `- along + s` for the root `s` of
  -- `along^2 - |o - c|^2 + r^2`, one of them where that is 0 and none where it is negative, and, where
  -- the search is confined, only those from 0 to the length of `v`. In `out`, where it is not NULL,
  -- it leaves the points at these distances from `o`, in this order, and NULL vectors behind them,
  -- whatever was there.
  pub vec3_int_sph-hits :
      (p q : Vec3 D)
      → (vec3_int_sph fl o v c r confined (some (p ∷ q ∷ [])) ≡ (length hits, some (pair_of hits)))
        × (vec3_int_sph fl o v c r confined none ≡ (length hits, none))
  unfolding vec3_int_sph solve roots_loop write_hit cleared accepted pow2 vec3_null vec3_unit
      vec3_mag vec3_sub vec3_dot vec3_sqmag vec3_add vec3_mul vec3_div too_short
  vec3_int_sph-hits p q = ground arith

-- A first segment that starts nowhere meets nothing: where the start is a NULL vector, so is the
-- result of `vec2_int_vec2`, on every branch.
vec2_int_vec2-null :
    {D : Type 0} (fl : Doubles D)
    → PropagatesNan fl
    → (a u b v : Vec2 D) → vec2_is_null fl a ≡ true
    → vec2_is_null fl (vec2_int_vec2 fl a u b v) ≡ true
unfolding vec2_int_vec2 vec2_null vec2_is_null vec2_add vec2_mul
vec2_int_vec2-null fl nans a u b v h = ground (
  arith,
  nans.nan-IsNan,
  nans.add_left a.x (fl.mul u.x (fl.div (vec2_pdot fl (vec2_sub fl b a) v) (vec2_pdot fl u v))) h,
)
