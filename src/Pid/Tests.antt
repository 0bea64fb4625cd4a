-- ===== src/Pid/Tests.antt =====
-- A controller with the toy arithmetic, where a slope is not divided by its time.
use ccore.Base.{ℕ, ◌≡◌, refl, Bool, true, false, Option, none, some, [], ◌∷◌}
use ccore.Base.CString.{CString, str_eq}
use ccore.Base.Outcome.{Outcome, ok}
use ccore.Base.Toy.{toy, toy-PropagatesNan, toy-IsOrder}
use ccore.Config.Entries.{Cfg, cfg_num, get_double, entry_value, find_entry, find_from, key_buffer}
use ccore.Math.{clamp_f64}
use ccore.Pid.{
  Pid, Sample, Gain, reset, smoothed, integrated, update, updates, get_output, get_into_literal,
  load_cfg,
}
use ccore.Pid.Filter.{sum_up, low_pass, updates-folds}
use ccore.Pid.Limits.{integ_bounds, first_outputs, load_cfg-false}

abbrev pid : Pid (Option ℕ)
pid = record {
  prev = none;
  error = none;
  deriv = none;
  integ = none;
  kp = some 2;
  ki = some 1;
  kd = some 0;
  integ_clamp = some 10;
  rise_tau = some 1;
}

abbrev sample : ℕ → ℕ → Sample (Option ℕ)
sample value error = record { value = some value; error = some error; dt = some 1 }

-- The output is a number behind two samples: `2 * 4 + 1 * 10 + 0 * 2`.
two_outputs : get_output toy (updates toy pid (sample 1 7 ∷ sample 3 4 ∷ [])) ≡ some 18
unfolding updates update integrated smoothed clamp_f64 get_output
two_outputs = refl

integ_bounds_example :
    (toy.lt (updates toy pid (sample 1 7 ∷ sample 3 4 ∷ [])).integ (some 0) ≡ false)
    × (toy.lt (some 10) (updates toy pid (sample 1 7 ∷ sample 3 4 ∷ [])).integ ≡ false)
integ_bounds_example = integ_bounds toy toy-IsOrder pid (sample 1 7) (sample 3 4 ∷ []) refl

first_outputs_example :
    (toy.is_nan (get_output toy (reset toy pid)) ≡ true)
    × (toy.is_nan (get_output toy (update toy (reset toy pid) (sample 1 7))) ≡ true)
first_outputs_example = first_outputs toy toy-PropagatesNan pid (sample 1 7)

updates-folds_example :
    ((updates toy (reset toy pid) (sample 1 7 ∷ sample 3 4 ∷ [])).integ
      ≡ sum_up toy (some 10) (some 0) (sample 1 7 ∷ sample 3 4 ∷ []))
    × ((updates toy (reset toy pid) (sample 1 7 ∷ sample 3 4 ∷ [])).deriv
        ≡ low_pass toy (some 1) (some 1) none (sample 3 4 ∷ []))
    × ((updates toy (reset toy pid) (sample 1 7 ∷ sample 3 4 ∷ [])).prev ≡ some 3)
    × ((updates toy (reset toy pid) (sample 1 7 ∷ sample 3 4 ∷ [])).error ≡ some 4)
updates-folds_example =
    updates-folds toy toy-PropagatesNan pid (sample 1 7) (sample 3 4 ∷ []) refl refl
      (refl, (refl, tt))

-- A configuration that holds the gains, of which the bytes of the fields make the empty key.
abbrev gains : Cfg (Option ℕ)
gains = record {
  capacity = 32;
  entries =
      record {
        key = b'k' ∷ b'p' ∷ [];
        value = some (record { kind = cfg_num; str = none; f64 = some 3; i64 = 3; b = false });
      }
      ∷ [];
}

abbrev empty_text : Pid (Option ℕ) → Gain → Outcome CString
empty_text p g = ok []

not_loaded : load_cfg toy empty_text none pid gains ≡ ok (false, pid)
unfolding load_cfg get_into_literal get_double entry_value find_entry find_from key_buffer str_eq
not_loaded = refl

load_cfg-false_example : (◌≡◌ {A = Bool} false false) × (pid ≡ pid)
load_cfg-false_example = load_cfg-false toy empty_text none pid gains not_loaded
