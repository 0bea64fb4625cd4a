-- ===== src/Config/Reader.antt =====
-- Lines of a configuration file: `read_line`, `line_is_comment` and `trim`.
pub mod Text
use ccore.Base.{
  ℕ, zero, suc, ◌+◌, ◌*◌, ◌%◌, Bool, true, false, ◌&&◌, ◌||◌, not, List, [], ◌∷◌, ◌++◌, ◌==◌, ltb,
  leb, if◌then◌else◌, length,
}
use ccore.Base.CString.{CString, is_space}
use ccore.Base.Outcome.{Outcome, ok, fault, ◌>>=◌}
use ccore.Base.Words.{size_mod}

-- What a call of `read_line` leaves: the bytes of the line, the capacity of the buffer, what is left
-- to read, and whether `fgetc` has returned `EOF`, at the end of the file or where reading fails.
pub record Line : Type 0 where
  pub bytes : List ℕ
  pub capacity : ℕ
  pub rest : List ℕ
  pub at_eof : Bool

-- Room for one more byte and the NUL.
unfoldable pub grow : ℕ → ℕ → ℕ
grow size capacity =
    if ltb capacity ((size + 2) % size_mod)
    then (if capacity == 0 then 128 else capacity * 2 % size_mod)
    else capacity

-- `(*line)[size] = c; (*line)[size+1] = '\0';`
unfoldable pub put : List ℕ → ℕ → ℕ → Outcome (List ℕ)
put line capacity c = if ltb (length line + 1) capacity then ok (line ++ c ∷ []) else fault

unfoldable pub read_loop : List ℕ → List ℕ → ℕ → Outcome Line
unfolding grow put is_space
read_loop [] line capacity =
    ok (record { bytes = line; capacity = capacity; rest = []; at_eof = true })
read_loop (c ∷ input) line capacity =
    let skip = read_loop input line capacity in
    let keep : Outcome Line = (do
      let room = grow (length line) capacity
      line' ← put line room c
      read_loop input line' room) in
    if (length line == 0) && is_space c
    then skip
    else if c == b'\r'
    then skip
    else if c == b'\n'
    then ok (record { bytes = line; capacity = capacity; rest = input; at_eof = false })
    else keep

unfoldable pub read_line : List ℕ → ℕ → Outcome Line
unfolding read_loop
read_line input capacity = read_loop input [] capacity

unfoldable pub line_is_comment : List ℕ → Bool
line_is_comment [] = true
line_is_comment (c ∷ []) = c == b'#'
line_is_comment (c ∷ d ∷ line) = (c == b'#') || ((c == b'/') && (d == b'/'))

-- `isspace` and `isdigit` on `*str`, a `char`, are undefined for one that is negative.
unfoldable pub plain : CString → Outcome CString
plain [] = ok []
plain (c ∷ str) = if leb 128 c then fault else ok (c ∷ str)

-- Where the loop of `trim` stops.
unfoldable pub skip_spaces : CString → CString
unfolding is_space
skip_spaces [] = []
skip_spaces (c ∷ str) = let rest = skip_spaces str in if is_space c then rest else c ∷ str

unfoldable pub trim : CString → Outcome CString
unfolding skip_spaces plain
trim str = plain (skip_spaces str)
