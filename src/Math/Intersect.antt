-- ===== src/Math/Intersect.antt =====
-- src/math.c: where a line meets a sphere, and where two segments meet.
pub mod Hits
use ccore.Base.{
  ℕ, zero, suc, ◌+◌, ◌≡◌, Bool, true, false, ◌&&◌, ◌||◌, not, Option, none, some, List, [], ◌∷◌,
  if◌then◌else◌, set,
}
use ccore.Base.Doubles.{Doubles}
use ccore.Math.Vectors.{
  Vec2, Vec3, vec2_null, vec3_null, vec3_unit, vec3_mag, vec3_sub, vec3_dot, vec3_sqmag, vec3_add,
  vec3_mul, vec2_sub, vec2_pdot, vec2_add, vec2_mul,
}

module _ {D : Type 0} (fl : Doubles D) where
  unfoldable pub pow2 : D → D
  pow2 a = fl.mul a a

  unfoldable pub vec2_parallel : Vec2 D → Vec2 D → Bool
  vec2_parallel a b =
      (fl.eq a.y fl.zero && fl.eq b.y fl.zero) || fl.eq (fl.div a.x a.y) (fl.div b.x b.y)

  unfoldable pub vec2_equal : Vec2 D → Vec2 D → Bool
  vec2_equal a b = fl.eq a.x b.x && fl.eq a.y b.y

  -- `(d >= 0 && d <= dist) || !confined`
  unfoldable pub accepted : D → Bool → D → Bool
  accepted dist confined d = (fl.le fl.zero d && fl.le d dist) || not confined

  -- `if(out) out[valid] = vec3_add(o, vec3_mul(u, d));`, where `none` is a NULL `out`
  unfoldable pub write_hit :
      Option (List (Vec3 D)) → ℕ → Vec3 D → Vec3 D → D → Option (List (Vec3 D))
  unfolding vec3_add vec3_mul
  write_hit none valid o u d = none
  write_hit (some out) valid o u d = some (set out valid (vec3_add fl o (vec3_mul fl u d)))

  -- The loop over the two roots, from the count of those that are written.
  unfoldable pub roots_loop :
      D → Bool → Vec3 D → Vec3 D → List D → ℕ → Option (List (Vec3 D)) → ℕ × Option (List (Vec3 D))
  unfolding accepted write_hit
  roots_loop dist confined o u [] valid out = (valid, out)
  roots_loop dist confined o u (d ∷ ds) valid out =
      let ok = accepted dist confined d in
      roots_loop dist confined o u ds (if ok then valid + 1 else valid)
        (if ok then write_hit out valid o u d else out)

  -- What is behind the computation of `delta`.
  unfoldable pub solve :
      D → Bool → Vec3 D → Vec3 D → D → D → Option (List (Vec3 D)) → ℕ × Option (List (Vec3 D))
  unfolding accepted write_hit roots_loop
  solve dist confined o u u_o_c delta out =
      if fl.lt delta fl.zero
      then (0, out)
      else if fl.eq delta fl.zero
      then (let d = fl.neg u_o_c in
          if accepted dist confined d then (1, write_hit out 0 o u d) else (0, out))
      else (let sq_delta = fl.sqrt delta in
          let root = λ (mult : D). fl.add (fl.neg u_o_c) (fl.mul mult sq_delta) in
          roots_loop dist confined o u (root (fl.neg fl.one) ∷ root fl.one ∷ []) 0 out)

  unfoldable pub cleared : Option (List (Vec3 D)) → Option (List (Vec3 D))
  unfolding vec3_null
  cleared none = none
  cleared (some out) = some (set (set out 0 (vec3_null fl)) 1 (vec3_null fl))

  -- `out` has two elements, or is NULL.
  unfoldable pub vec3_int_sph :
      Vec3 D → Vec3 D → Vec3 D → D → Bool → Option (List (Vec3 D)) → ℕ × Option (List (Vec3 D))
  unfolding vec3_unit vec3_mag vec3_sub vec3_dot vec3_sqmag pow2 cleared solve
  vec3_int_sph o v c r confined out =
      let u = vec3_unit fl v in
      let dist = vec3_mag fl v in
      let o_to_c = vec3_sub fl o c in
      let u_o_c = vec3_dot fl u o_to_c in
      let delta = fl.add (fl.sub (pow2 u_o_c) (vec3_sqmag fl o_to_c)) (pow2 r) in
      solve dist confined o u u_o_c delta (cleared out)

  unfoldable pub vec2_int_vec2 : Vec2 D → Vec2 D → Vec2 D → Vec2 D → Vec2 D
  unfolding vec2_parallel vec2_null vec2_equal vec2_sub vec2_pdot vec2_add vec2_mul
  vec2_int_vec2 a u b v =
      if vec2_parallel u v
      then vec2_null fl
      else if vec2_equal a b
      then a
      else (let w = vec2_sub fl b a in
          let mw = vec2_sub fl a b in
          let ta = fl.div (vec2_pdot fl w v) (vec2_pdot fl u v) in
          let tb = fl.div (vec2_pdot fl mw u) (vec2_pdot fl v u) in
          if (fl.lt ta fl.zero || fl.lt fl.one ta) || (fl.lt tb fl.zero || fl.lt fl.one tb)
          then vec2_null fl
          else vec2_add fl a (vec2_mul fl u ta))
