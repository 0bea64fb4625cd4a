-- ===== src/Config/Tests.antt =====
-- A configuration of three lines, read with floats that are natural numbers, and the theorems at
-- such inputs.
use ccore.Base.{
  ℕ, ◌+◌, ◌*◌, ◌-◌, ◌^◌, ◌≡◌, refl, true, false, not, none, some, List, [], ◌∷◌, ◌==◌, ltb,
  if◌then◌else◌, arith,
}
use ccore.Base.CString.{CString, str_eq, is_space, is_digit}
use ccore.Base.Floats.{Floats}
use ccore.Base.Outcome.{out_of_fuel, Returns}
use ccore.Config.Entries.{Cfg, key_buffer}
use ccore.Config.Entries.Search.{look, IsCfg}
use ccore.Config.MissingValue.{IsUnreadable, load_missing_value}
use ccore.Config.Parser.{parse_loop, empty, load}
use ccore.Config.Parser.RoundTrip.{load-print}
use ccore.Config.Parser.Literals.{
  Literal, quoted, flag, digits, IsKey, AreSettings, print_file, settled, value_of,
}
use ccore.Config.Parser.Ends.{Ends}
use ccore.Config.Parser.Failing.{parse_loop-failing}
use ccore.Config.Parser.Total.{load_ends}

abbrev decimal : ℕ → CString → ℕ
decimal n [] = n
decimal n (c ∷ s) = decimal (10 * n + (c - b'0')) s

abbrev naturals : Floats ℕ ℕ
naturals = record {
  zero = 0;
  one = 1;
  is_nonzero = λ x. not (x == 0);
  to_int = λ x. if ltb x (2 ^ 31) then some x else none;
  to_float = λ x. x;
  atof = decimal 0;
}

-- `port: 80`, `host: "a b"` and `port: true`
abbrev settings : List (List ℕ × Literal)
settings =
    (b'p' ∷ b'o' ∷ [], digits b'8' (b'0' ∷ []) 80)
    ∷ (b'h' ∷ [], quoted (b'a' ∷ b' ' ∷ b'b' ∷ []))
    ∷ (b'p' ∷ b'o' ∷ [], flag true)
    ∷ []

abbrev file : List ℕ
file = print_file naturals settings

settings-AreSettings : AreSettings naturals settings
unfolding is_space is_digit
settings-AreSettings = ground arith

k-IsKey : IsKey (b'k' ∷ [])
unfolding is_space
k-IsKey = ground arith

load-print_example : Returns (load naturals (some file)) λ out.
    (cfg : Cfg ℕ) × (out ≡ some cfg)
    × ((j : CString) → look cfg j ≡ settled naturals none j settings)
load-print_example = load-print naturals settings settings-AreSettings (omega arith)

-- No fuel is enough for the same file with a read that fails at its end.
parse_loop-failing_example :
    parse_loop naturals true 1000 (empty naturals) file false 0 ≡ out_of_fuel
parse_loop-failing_example =
    parse_loop-failing naturals settings settings-AreSettings (omega arith) 1000

load_ends_example :
    Ends naturals file
      (load naturals (some file))
      (λ out. (cfg : Cfg ℕ) × (out ≡ some cfg) × IsCfg cfg)
load_ends_example = load_ends naturals file (omega arith)

abbrev one_entry : Cfg ℕ
one_entry = record {
  capacity = 32;
  entries =
      record { key = b'p' ∷ []; value = some (value_of naturals (digits b'8' (b'0' ∷ []) 80)) }
      ∷ [];
}

one_entry-look :
    look one_entry (key_buffer (b'p' ∷ []))
    ≡ some (some (value_of naturals (digits b'8' (b'0' ∷ []) 80)))
unfolding look key_buffer str_eq
one_entry-look = refl

load_missing_value_example :
    Returns
      (load naturals (some (b'k' ∷ b':' ∷ b'\n' ∷ [])))
      λ out. (cfg : Cfg ℕ) × (out ≡ some cfg) × IsUnreadable naturals cfg (b'k' ∷ [])
load_missing_value_example =
    load_missing_value naturals (b'k' ∷ []) [] k-IsKey (omega arith) (omega arith)
