-- ===== src/Pid/Filter.antt =====
-- include/ccore/pid.h: what the fields of a controller are after a run over samples.
use ccore.Base.{◌≡◌, refl, ap, ◌∙◌, false, not, if◌then◌else◌, List, [], ◌∷◌, arith}
use ccore.Base.Doubles.{Doubles, PropagatesNan}
use ccore.Math.{clamp_f64}
use ccore.Pid.{Pid, Sample, reset, smoothed, integrated, update, updates}

module _ {D : Type 0} (fl : Doubles D) where
  -- `sum` where it lies between `- bound` and `bound`, and else the bound that it passes.
  abbrev pub bounded : D → D → D
  bounded bound sum =
      if not (fl.lt (fl.neg bound) sum)
      then fl.neg bound
      else if fl.lt sum bound
      then sum
      else bound

  -- The integral: each error for its time, added up from 0 within the bounds.
  abbrev pub sum_up : D → D → List (Sample D) → D
  sum_up bound acc [] = acc
  sum_up bound acc (s ∷ ss) = sum_up bound (bounded bound (fl.add acc (fl.mul s.error s.dt))) ss

  -- One step of a low-pass filter of time constant `tau`, which moves `acc` to `slope` by the part
  -- `dt / tau` of their distance; it starts, while `acc` is no number, with the slope itself.
  abbrev pub filtered : D → D → D → D → D
  filtered tau dt acc slope =
      if fl.is_nan acc then slope else fl.add acc (fl.mul (fl.sub slope acc) (fl.div dt tau))

  -- The derivative: that filter over the slopes between neighbours.
  abbrev pub low_pass : D → D → D → List (Sample D) → D
  low_pass tau last acc [] = acc
  low_pass tau last acc (s ∷ ss) =
      low_pass tau s.value (filtered tau s.dt acc (fl.div (fl.sub s.value last) s.dt)) ss

  abbrev pub last_of : Sample D → List (Sample D) → Sample D
  last_of s [] = s
  last_of s (t ∷ ts) = last_of t ts

  -- No value among the samples is NaN.
  abbrev pub Measured : List (Sample D) → Type 0
  Measured [] = Unit {0}
  Measured (s ∷ ss) = (fl.is_nan s.value ≡ false) × Measured ss

  integ-update :
      (pid : Pid D) (s : Sample D)
      → fl.is_nan pid.integ ≡ false
      → (update fl pid s).integ ≡ bounded pid.integ_clamp (fl.add pid.integ (fl.mul s.error s.dt))
  unfolding update integrated clamp_f64
  integ-update pid s q = ground arith

  deriv-update :
      (pid : Pid D) (s : Sample D)
      → fl.is_nan pid.prev ≡ false
      → (update fl pid s).deriv
        ≡ filtered pid.rise_tau s.dt pid.deriv (fl.div (fl.sub s.value pid.prev) s.dt)
  unfolding update smoothed
  deriv-update pid s p = rw p refl

  ending :
      (pid : Pid D) (s : Sample D) (ss : List (Sample D))
      → ((updates fl pid (s ∷ ss)).prev ≡ (last_of s ss).value)
        × ((updates fl pid (s ∷ ss)).error ≡ (last_of s ss).error)
  unfolding updates update
  ending pid s [] = (refl, refl)
  ending pid s (t ∷ ss) = ending (update fl pid s) t ss

  module _ (nans : PropagatesNan fl) where
    -- What is clamped to bounds that are numbers is a number.
    bounded-number :
        (v bound : D)
        → fl.is_nan (fl.neg bound) ≡ false
        → fl.is_nan bound ≡ false
        → fl.is_nan (bounded bound v) ≡ false
    bounded-number v bound p q = ground (arith, nans.lt_nan v (fl.neg bound))

    going :
        (pid : Pid D) (ss : List (Sample D))
        → fl.is_nan pid.prev ≡ false
        → fl.is_nan pid.integ ≡ false
        → fl.is_nan (fl.neg pid.integ_clamp) ≡ false
        → fl.is_nan pid.integ_clamp ≡ false
        → Measured ss
        → ((updates fl pid ss).integ ≡ sum_up pid.integ_clamp pid.integ ss)
          × ((updates fl pid ss).deriv ≡ low_pass pid.rise_tau pid.prev pid.deriv ss)
    unfolding updates update
    going pid [] p q lo hi m = (refl, refl)
    going pid (s ∷ ss) p q lo hi (m, ms) =
        let now = integ-update pid s q in
        let sum = fl.add pid.integ (fl.mul s.error s.dt) in
        let still_number = ap fl.is_nan now ∙ bounded-number sum pid.integ_clamp lo hi in
        let (integ_eq, deriv_eq) = going (update fl pid s) ss m still_number lo hi ms in
        (
          integ_eq ∙ ap (λ acc. sum_up pid.integ_clamp acc ss) now,
          deriv_eq ∙ ap (λ acc. low_pass pid.rise_tau s.value acc ss) (deriv-update pid s p),
        )

    -- Where NaN propagates as in IEEE 754, behind a reset, a run over samples whose values are
    -- numbers, with bounds that are numbers: the
    -- integral is the sum of all errors for their times from 0, kept between the bounds at each
    -- sample; the derivative is the filter `acc + (slope - acc) * (dt / tau)` over the slopes between
    -- neighbours, which starts with the first slope that is a number; and the value and the error are
    -- those of the last sample.
    pub updates-folds :
        (pid : Pid D) (s : Sample D) (ss : List (Sample D))
        → fl.is_nan (fl.neg pid.integ_clamp) ≡ false
        → fl.is_nan pid.integ_clamp ≡ false
        → Measured (s ∷ ss)
        → ((updates fl (reset fl pid) (s ∷ ss)).integ ≡ sum_up pid.integ_clamp fl.zero (s ∷ ss))
          × ((updates fl (reset fl pid) (s ∷ ss)).deriv ≡ low_pass pid.rise_tau s.value fl.nan ss)
          × ((updates fl (reset fl pid) (s ∷ ss)).prev ≡ (last_of s ss).value)
          × ((updates fl (reset fl pid) (s ∷ ss)).error ≡ (last_of s ss).error)
    unfolding updates update reset integrated clamp_f64
    updates-folds pid s ss lo hi (m, ms) =
        let bound = pid.integ_clamp in
        let start = update fl (reset fl pid) s in
        let sum = fl.add fl.zero (fl.mul s.error s.dt) in
        let now : start.integ ≡ bounded bound sum = ground (arith, nans.nan-IsNan) in
        let later : start.deriv ≡ fl.nan = rw nans.nan-IsNan refl in
        let still_number = ap fl.is_nan now ∙ bounded-number sum bound lo hi in
        let (integ_eq, deriv_eq) = going start ss m still_number lo hi ms in
        let (prev_eq, error_eq) = ending (reset fl pid) s ss in
        (
          integ_eq ∙ ap (λ acc. sum_up bound acc ss) now,
          deriv_eq ∙ ap (λ acc. low_pass pid.rise_tau s.value acc ss) later,
          prev_eq,
          error_eq,
        )
