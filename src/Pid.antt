-- ===== src/Pid.antt =====
-- include/ccore/pid.h: the PID controller, over the arithmetic of `double` (`Base.Doubles`). The
-- functions take `pid` by its value before and give the value after; it is not NULL.
pub mod Filter
pub mod Limits
mod Tests
use ccore.Base.{◌≡◌, Bool, true, false, ◌||◌, List, [], ◌∷◌, if◌then◌else◌}
use ccore.Base.CString.{CString}
use ccore.Base.Doubles.{Doubles}
use ccore.Base.Outcome.{Outcome, ok, fault, ◌>>=◌}
use ccore.Config.Entries.{Cfg, get_double}
use ccore.Math.{clamp_f64}

pub record Pid (D : Type 0) : Type 0 where
  pub prev : D
  pub error : D
  pub deriv : D
  pub integ : D
  pub kp : D
  pub ki : D
  pub kd : D
  pub integ_clamp : D
  pub rise_tau : D

-- The arguments of a call of `cc_pid_update`.
pub record Sample (D : Type 0) : Type 0 where
  pub value : D
  pub error : D
  pub dt : D

-- The fields that `cc_pid_load_cfg` means to load.
pub data Gain : Type 0 where
  gain_kp gain_ki gain_kd gain_rise : Gain

module _ {D : Type 0} (fl : Doubles D) where
  unfoldable pub reset : Pid D → Pid D
  reset pid = record pid { prev = fl.nan; error = fl.nan; deriv = fl.nan; integ = fl.nan }

  unfoldable pub init : Pid D → D → D → D → D → D → Pid D
  unfolding reset
  init pid kp ki kd integ_clamp rise = record (reset pid) {
    kp = kp;
    ki = ki;
    kd = kd;
    integ_clamp = integ_clamp;
    rise_tau = rise;
  }

  -- `pid->deriv` after a sample, from a finite difference.
  unfoldable pub smoothed : D → D → D → D → D
  smoothed rise_tau deriv dv dt =
      if fl.is_nan deriv then dv else fl.add deriv (fl.mul (fl.sub dv deriv) (fl.div dt rise_tau))

  -- `pid->integ` after a sample.
  unfoldable pub integrated : D → D → D → D → D
  unfolding clamp_f64
  integrated integ_clamp integ error dt =
      clamp_f64 fl (fl.add (if fl.is_nan integ then fl.zero else integ) (fl.mul error dt))
        (fl.neg integ_clamp) integ_clamp

  unfoldable pub update : Pid D → Sample D → Pid D
  unfolding smoothed integrated
  update pid s = record pid {
    integ = integrated pid.integ_clamp pid.integ s.error s.dt;
    deriv =
        if fl.is_nan pid.prev
        then pid.deriv
        else smoothed pid.rise_tau pid.deriv (fl.div (fl.sub s.value pid.prev) s.dt) s.dt;
    error = s.error;
    prev = s.value;
  }

  -- A run of the controller.
  unfoldable pub updates : Pid D → List (Sample D) → Pid D
  unfolding update
  updates pid [] = pid
  updates pid (s ∷ ss) = updates (update pid s) ss

  unfoldable pub get_output : Pid D → D
  get_output pid =
      if fl.is_nan pid.prev || fl.is_nan pid.integ
      then fl.nan
      else fl.add (fl.add (fl.mul pid.kp pid.error) (fl.mul pid.ki pid.integ))
          (fl.mul pid.kd pid.deriv)

  -- A call `cc_cfg_get_double(cfg, "pid_kp", &pid->kp)`: the second argument of the function is the
  -- pointer that it writes through, and the third is its format. So `text` is what `vsnprintf`
  -- makes of the bytes of the field, and the number that is found is written into the literal.
  unfoldable pub get_into_literal : Cfg D → D → CString → Outcome Bool
  get_into_literal cfg literal text = do
    (found, out) ← get_double cfg literal text
    if found then fault else ok false

  -- `formatted` is `vsnprintf` on the bytes of a field, and `literal` the bytes of a literal.
  unfoldable pub load_cfg :
      (Pid D → Gain → Outcome CString) → D → Pid D → Cfg D → Outcome (Bool × Pid D)
  unfolding get_into_literal reset
  load_cfg formatted literal pid cfg = do
    kp ← formatted pid gain_kp
    has_kp ← get_into_literal cfg literal kp
    if has_kp
        then (do
          ki ← formatted pid gain_ki
          has_ki ← get_into_literal cfg literal ki
          if has_ki
              then (do
                kd ← formatted pid gain_kd
                has_kd ← get_into_literal cfg literal kd
                if has_kd
                    then (do
                      rise ← formatted pid gain_rise
                      has_rise ← get_into_literal cfg literal rise
                      ok (if has_rise then (true, reset pid) else (false, pid)))
                    else ok (false, pid))
              else ok (false, pid))
        else ok (false, pid)
