-- ===== src/Config/Reader/Text.antt =====
-- `read_line` against a description of a line that has no buffer in it.
use ccore.Base.{
  ℕ, ◌+◌, ◌^◌, ◌≤◌, ◌<◌, ◌≡◌, refl, sym, ◌∙◌, ◌⊎◌, inl, inr, Bool, true, false, List, [], ◌∷◌, ◌++◌,
  ◌==◌, if◌then◌else◌, length, length-append, arith, Bool-cases,
}
use mathlib.Core.List.{append_assoc, append-nil}
use ccore.Base.CString.{is_space}
use ccore.Base.Outcome.{ok, Returns}
use ccore.Config.Reader.{Line, grow, put, read_loop, read_line, skip_spaces}

-- The bytes up to the first newline without the carriage returns, what is behind that newline, and
-- whether there is none.
unfoldable pub text_of : List ℕ → List ℕ
text_of [] = []
text_of (c ∷ input) =
    let others = text_of input in
    if c == b'\n' then [] else if c == b'\r' then others else c ∷ others

unfoldable pub rest_of : List ℕ → List ℕ
rest_of [] = []
rest_of (c ∷ input) = let others = rest_of input in if c == b'\n' then input else others

unfoldable pub is_last : List ℕ → Bool
is_last [] = true
is_last (c ∷ input) = let others = is_last input in if c == b'\n' then false else others

-- The buffer holds `size` bytes and a NUL, if it has been written to.
abbrev pub HasRoom : ℕ → ℕ → Type 0
HasRoom size capacity = (size ≡ 0) ⊎ (size < capacity)

grow-lt :
    (size capacity : ℕ) → size < 2 ^ 62 → HasRoom size capacity → size + 1 < grow size capacity
unfolding grow
grow-lt size capacity small room = ground arith

put-ok :
    (line : List ℕ) (capacity c : ℕ)
    → length line < 2 ^ 62
    → HasRoom (length line) capacity
    → put line (grow (length line) capacity) c ≡ ok (line ++ c ∷ [])
unfolding put
put-ok line capacity c small room = ground (arith, grow-lt (length line) capacity)

-- What a line was read as, whatever the buffer has become.
pub record IsLine (l : Line) (bytes rest : List ℕ) (at_eof : Bool) : Type 0 where
  pub bytes_eq : l.bytes ≡ bytes
  pub rest_eq : l.rest ≡ rest
  pub eof_eq : l.at_eof ≡ at_eof

length-snoc : (line : List ℕ) (c : ℕ) → length (line ++ c ∷ []) ≡ length line + 1
length-snoc line c = length-append line (c ∷ [])

read_loop-text :
    (input line : List ℕ) (capacity : ℕ)
    → (length line == 0) ≡ false
    → length line + length input < 2 ^ 62
    → HasRoom (length line) capacity
    → Returns
        (read_loop input line capacity)
        λ l. IsLine l (line ++ text_of input) (rest_of input) (is_last input)
unfolding read_loop text_of rest_of is_last
read_loop-text [] line capacity some_yet small room = (
  record { bytes = line; capacity = capacity; rest = []; at_eof = true },
  refl,
  record { bytes_eq = sym (append-nil line); rest_eq = refl; eof_eq = refl },
)
read_loop-text (c ∷ input) line capacity some_yet small room = elim (Bool-cases (c == b'\r')) [
  | inl cr ↦
      let other : (c == b'\n') ≡ false = ground arith in
      rw (some_yet, cr, other) (read_loop-text input line capacity some_yet (omega arith) room)
  | inr visible ↦ elim (Bool-cases (c == b'\n')) [
    | inl newline ↦
        rw (some_yet, visible, newline)
          (
            record { bytes = line; capacity = capacity; rest = input; at_eof = false },
            refl,
            record { bytes_eq = sym (append-nil line); rest_eq = refl; eof_eq = refl },
          )
    | inr kept ↦
        let room' = grow (length line) capacity in
        let longer = length-snoc line c in
        let (l, run, is) =
          read_loop-text input (line ++ c ∷ []) room' (ground (arith, longer))
            (omega (arith, longer))
            (inr (omega (arith, longer, grow-lt (length line) capacity (omega arith) room))) in
        rw (some_yet, visible, kept, put-ok line capacity c (omega arith) room)
          (
            l,
            run,
            record {
              bytes_eq = is.bytes_eq ∙ append_assoc line (c ∷ []) (text_of input);
              rest_eq = is.rest_eq;
              eof_eq = is.eof_eq;
            },
          )
  ]
]

read_first-text :
    (input : List ℕ) (capacity : ℕ)
    → length input < 2 ^ 62
    → Returns (read_loop input [] capacity) λ l.
      IsLine l
        (text_of (skip_spaces input))
        (rest_of (skip_spaces input))
        (is_last (skip_spaces input))
unfolding read_loop skip_spaces text_of rest_of is_last is_space
read_first-text [] capacity small = (
  record { bytes = []; capacity = capacity; rest = []; at_eof = true },
  refl,
  record { bytes_eq = refl; rest_eq = refl; eof_eq = refl },
)
read_first-text (c ∷ input) capacity small = elim (Bool-cases (is_space c)) [
  | inl blank ↦ rw blank (read_first-text input capacity (omega arith))
  | inr visible ↦
      let cr : (c == b'\r') ≡ false = ground arith in
      let newline : (c == b'\n') ≡ false = ground arith in
      let room = grow 0 capacity in
      let (l, run, is) =
        read_loop-text input (c ∷ []) room refl (omega arith)
          (inr (omega (arith, grow-lt 0 capacity (omega arith) (inl refl)))) in
      rw (visible, cr, newline, put-ok [] capacity c (omega arith) (inl refl)) (l, run, is)
]

-- `read_line` on less than `2^62` bytes of file, with a buffer of any capacity, never writes
-- outside the buffer. It skips white space, blank lines included, and then reads the bytes up to
-- the next newline without the carriage returns; the file is left behind that newline, and the end
-- of the file is met where there is none.
pub read_line-text :
    (input : List ℕ) (capacity : ℕ)
    → length input < 2 ^ 62
    → Returns (read_line input capacity) λ l.
      IsLine l
        (text_of (skip_spaces input))
        (rest_of (skip_spaces input))
        (is_last (skip_spaces input))
unfolding read_line
read_line-text input capacity small = read_first-text input capacity small

length-skip_spaces : (input : List ℕ) → length (skip_spaces input) ≤ length input
unfolding skip_spaces
length-skip_spaces [] = omega arith
length-skip_spaces (c ∷ input) = ground (arith, length-skip_spaces input)

length-rest_of : (input : List ℕ) → is_last input ≡ false → length (rest_of input) < length input
unfolding rest_of is_last
length-rest_of [] more = cc
length-rest_of (c ∷ input) more = ground (arith, length-rest_of input)

-- Each line but the last takes a byte of the file at least.
pub rest_of-lt :
    (input : List ℕ)
    → is_last (skip_spaces input) ≡ false
    → length (rest_of (skip_spaces input)) < length input
rest_of-lt input more =
    omega (arith, length-skip_spaces input, length-rest_of (skip_spaces input) more)
