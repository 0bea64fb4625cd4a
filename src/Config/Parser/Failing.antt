-- ===== src/Config/Parser/Failing.antt =====
-- The loop of `parse` in src/cfg.c on a file whose reads fail.
use ccore.Base.{
  ℕ, zero, suc, ◌+◌, ◌^◌, ◌<◌, ◌≡◌, refl, ◌∙◌, true, false, List, [], ◌∷◌, length, arith,
}
use ccore.Base.Floats.{Floats}
use ccore.Base.Outcome.{out_of_fuel}
use ccore.Config.Entries.{Cfg}
use ccore.Config.Entries.Search.{IsCfg}
use ccore.Config.Parser.{parse_loop, feof, empty}
use ccore.Config.Parser.Literals.{AreSettings, Literal, print_file}
use ccore.Config.Parser.RoundTrip.{
  read_line-nil, parse_turn-nil, parse_loop-setting, parse_loop-step,
}

module _ {D S : Type 0} (fl : Floats D S) where
  parse_loop-stuck :
      (fuel : ℕ) (cfg : Cfg D) (ss : List (List ℕ × Literal)) (capacity : ℕ)
      → IsCfg cfg
      → AreSettings fl ss
      → length cfg.entries + length (print_file fl ss) < 2 ^ 62
      → parse_loop fl true fuel cfg (print_file fl ss) false capacity ≡ out_of_fuel
  unfolding feof
  parse_loop-stuck zero cfg ss capacity is are small = unfold parse_loop in refl
  parse_loop-stuck (suc fuel) cfg [] capacity is are small =
      parse_loop-step fl true fuel cfg [] capacity _ (read_line-nil fl capacity)
      ∙ parse_turn-nil fl (λ c. parse_loop fl true fuel c [] false capacity) cfg
      ∙ parse_loop-stuck fuel cfg [] capacity is are small
  parse_loop-stuck (suc fuel) cfg ((key, l) ∷ rest) capacity is (k, lit, are) small =
      let (cfg', roomy, turn, a, small') =
        parse_loop-setting fl true fuel cfg key l rest capacity is k lit small in
      turn ∙ parse_loop-stuck fuel cfg' rest roomy a.valid are small'

  -- A file that is opened, of which less than `2^62` bytes are read, a line `key: literal` for each
  -- setting, or nothing at all, and then every read fails: the loop of `parse` never ends, so no fuel
  -- is enough for it.
  pub parse_loop-failing :
      (ss : List (List ℕ × Literal))
      → AreSettings fl ss
      → length (print_file fl ss) < 2 ^ 62
      → (fuel : ℕ) → parse_loop fl true fuel (empty fl) (print_file fl ss) false 0 ≡ out_of_fuel
  parse_loop-failing ss are small fuel =
      parse_loop-stuck fuel (empty fl) ss 0 (record { fits = omega arith; distinct = tt }) are
        (omega arith)
