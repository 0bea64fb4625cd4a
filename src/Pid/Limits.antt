-- ===== src/Pid/Limits.antt =====
-- include/ccore/pid.h: the bounds of the integral, the output after a reset, and the loading of gains.
use ccore.Base.{◌≡◌, refl, Bool, true, false, List, [], ◌∷◌, if◌then◌else◌, arith}
use ccore.Base.CString.{CString}
use ccore.Base.Doubles.{Doubles, IsOrder, PropagatesNan}
use ccore.Base.Outcome.{Outcome, ok}
use ccore.Config.Entries.{Cfg}
use ccore.Math.Clamp.{clamp_f64_bounds}
use ccore.Pid.{
  Pid, Sample, Gain, reset, integrated, update, updates, get_output, get_into_literal, load_cfg,
}

module _ {D : Type 0} (fl : Doubles D) where
  integ_clamp-updates :
      (pid : Pid D) (ss : List (Sample D)) → (updates fl pid ss).integ_clamp ≡ pid.integ_clamp
  unfolding updates
  integ_clamp-updates pid [] = refl
  integ_clamp-updates pid (s ∷ ss) = integ_clamp-updates (update fl pid s) ss

  -- Where `<` is a strict order: after one sample or more, from any state and whatever the samples are, NaN included, the
  -- integral of a controller with bounds in order is not outside of them.
  pub integ_bounds :
      IsOrder fl
      → (pid : Pid D) (s : Sample D) (ss : List (Sample D))
      → fl.lt pid.integ_clamp (fl.neg pid.integ_clamp) ≡ false
      → (fl.lt (updates fl pid (s ∷ ss)).integ (fl.neg pid.integ_clamp) ≡ false)
        × (fl.lt pid.integ_clamp (updates fl pid (s ∷ ss)).integ ≡ false)
  unfolding updates
  integ_bounds order pid s [] h =
      clamp_f64_bounds fl order
        (fl.add (if fl.is_nan pid.integ then fl.zero else pid.integ) (fl.mul s.error s.dt))
        (fl.neg pid.integ_clamp) pid.integ_clamp h
  integ_bounds order pid s (t ∷ ss) h = integ_bounds order (update fl pid s) t ss h

  -- Where NaN propagates as in IEEE 754: behind `cc_pid_reset`, and still behind the first sample, the output is NaN, whatever the gains
  -- are: also for a controller with no derivative gain.
  pub first_outputs :
      PropagatesNan fl
      → (pid : Pid D) (s : Sample D)
      → (fl.is_nan (get_output fl (reset fl pid)) ≡ true)
        × (fl.is_nan (get_output fl (update fl (reset fl pid) s)) ≡ true)
  unfolding get_output reset update
  first_outputs nans pid s =
      let integ = integrated fl pid.integ_clamp fl.nan s.error s.dt in
      ground (
        arith,
        nans.nan-IsNan,
        nans.mul_right pid.kd fl.nan nans.nan-IsNan,
        nans.add_right (fl.add (fl.mul pid.kp s.error) (fl.mul pid.ki integ)) (fl.mul pid.kd fl.nan)
            (nans.mul_right pid.kd fl.nan nans.nan-IsNan),
      )

  -- Whatever the configuration holds, `cc_pid_load_cfg` loads nothing: where it returns, it returns
  -- false and leaves the controller as it was.
  pub load_cfg-false :
      (formatted : Pid D → Gain → Outcome CString) (literal : D) (pid : Pid D) (cfg : Cfg D)
      {b : Bool} {after : Pid D}
      → load_cfg fl formatted literal pid cfg ≡ ok (b, after)
      → (b ≡ false) × (after ≡ pid)
  unfolding load_cfg get_into_literal
  load_cfg-false formatted literal pid cfg h = ground arith
