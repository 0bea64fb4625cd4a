-- ===== src/Config/Parser.antt =====
-- The loop over the lines of a file, and `cc_cfg_load`.
pub mod Ends
pub mod Failing
pub mod Literals
pub mod RoundTrip
pub mod Total
pub mod Within
use ccore.Base.{
  ℕ, zero, suc, Bool, true, false, ◌&&◌, not, Option, none, some, List, [], ◌∷◌, ◌==◌,
  if◌then◌else◌, length, ◌+◌,
}
use ccore.Base.CString.{CString}
use ccore.Base.Floats.{Floats}
use ccore.Base.Outcome.{Outcome, ok, out_of_fuel, ◌>>=◌}
use ccore.Config.Entries.{Cfg, find_entry_or_add, store}
use ccore.Config.Reader.{Line, read_line, line_is_comment, trim}
use ccore.Config.Values.{split_at, Parsed, parse_value}

-- A buffer read as a string ends at the first NUL in it.
unfoldable pub as_string : List ℕ → CString
as_string [] = []
as_string (c ∷ bytes) = let rest = as_string bytes in if c == 0 then [] else c ∷ rest

-- `feof(f)` behind an `EOF` or not: an `EOF` for a read that fails does not set it.
unfoldable pub feof : Bool → Bool → Bool
feof true at_eof = false
feof false at_eof = at_eof

-- `*value && !line_is_comment(value, strlen(value))`
unfoldable pub has_more : CString → Bool
unfolding line_is_comment
has_more text = not (line_is_comment text)

module _ {D S : Type 0} (fl : Floats D S) where
  -- A line that is no comment: whether it parses, and the configuration behind it.
  unfoldable pub parse_entry : Cfg D → CString → CString → Outcome (Bool × Cfg D)
  unfolding find_entry_or_add store trim has_more
  parse_entry cfg key after = do
    (cfg', i) ← find_entry_or_add cfg key
    value ← trim after
    p ← parse_value fl value
    if p.success
        then (do rest ← trim p.rest; ok (not (has_more rest), store cfg' i p.value))
        else ok (false, store cfg' i p.value)

  unfoldable pub parse_line : Cfg D → List ℕ → Outcome (Bool × Cfg D)
  unfolding split_at as_string parse_entry
  parse_line cfg line = elim (split_at b':' (as_string line)) [
    | none ↦ ok (false, cfg)
    | some (key, after) ↦ parse_entry cfg key after
  ]

  -- The loop's body behind the call of `read_line`, with the rest of the loop as `next`.
  unfoldable pub parse_turn :
      (Cfg D → Outcome (Bool × Cfg D)) → Cfg D → List ℕ → Outcome (Bool × Cfg D)
  unfolding line_is_comment parse_line
  parse_turn next cfg line = if line_is_comment line then next cfg else do
    (success, cfg') ← parse_line cfg line
    elim success [ true ↦ next cfg' | false ↦ ok (false, cfg') ]

  -- `while(!feof(f))`, on fuel; what is left to read, `feof(f)` and the capacity of the line buffer
  -- are its variables. `fails` is whether the reads fail behind these bytes, in place of the end of
  -- the file.
  unfoldable pub parse_loop : Bool → ℕ → Cfg D → List ℕ → Bool → ℕ → Outcome (Bool × Cfg D)
  unfolding read_line parse_turn feof
  parse_loop fails fuel cfg input true capacity = ok (true, cfg)
  parse_loop fails zero cfg input false capacity = out_of_fuel
  parse_loop fails (suc fuel) cfg input false capacity = do
    l ← read_line input capacity
    parse_turn (λ cfg'. parse_loop fails fuel cfg' l.rest (feof fails l.at_eof) l.capacity) cfg
        l.bytes

  -- On a file that can be read to its end.
  unfoldable pub parse : Cfg D → List ℕ → Outcome (Bool × Cfg D)
  unfolding parse_loop
  parse cfg file = parse_loop false (length file + 1) cfg file false 0

  abbrev pub empty : Cfg D
  empty = record { capacity = 0; entries = [] }

  -- `cc_cfg_load` where no read fails: `none` is a file that cannot be opened, and what `parse` returns is dropped.
  unfoldable pub load : Option (List ℕ) → Outcome (Option (Cfg D))
  unfolding parse
  load none = ok none
  load (some file) = do (success, cfg) ← parse empty file; ok (some cfg)
