-- ===== src/Debug.antt =====
-- src/debug.c: `cc_print_stack` on POSIX systems. What `backtrace` and `backtrace_symbols` find is an
-- argument, and `malloc` does not fail.
pub mod Message
pub mod Symbols
mod Tests
use ccore.Base.{
  ℕ, ◌+◌, Option, none, some, List, [], ◌∷◌, ◌++◌, ltb, if◌then◌else◌, length, drop, replicate,
}
use ccore.Base.Buffer.{store}
use ccore.Base.CString.{CString}
use ccore.Base.Outcome.{Outcome, ok, fault, ◌>>=◌}

abbrev pub newline : ℕ
newline = 10

-- `BACKTRACE_STR`
abbrev pub backtrace_str : CString
backtrace_str =
    newline ∷ b'B' ∷ b'a' ∷ b'c' ∷ b'k' ∷ b't' ∷ b'r' ∷ b'a' ∷ b'c' ∷ b'e' ∷ b' ' ∷ b'i' ∷ b's'
    ∷ b':' ∷ newline ∷ []

-- The first loop: `snprintf(NULL, 0, "%s\n", fnames[i])` is the length of the line.
unfoldable pub measured : List CString → ℕ → ℕ
measured [] msg_len = msg_len
measured (name ∷ names) msg_len = measured names (msg_len + (length name + 1))

-- The second loop: `sprintf` writes the line and a NUL.
unfoldable pub filled : List CString → ℕ → List ℕ → Outcome (List ℕ)
filled [] j msg = ok msg
filled (name ∷ names) j msg = do
  msg' ← store msg j (name ++ newline ∷ 0 ∷ [])
  filled names (j + (length name + 1)) msg'

-- The message that is printed, where `i` is `1 + skip_frames` and there are `sz` frames; `none` is a
-- NULL of `backtrace_symbols`, which the loops read from `i` on.
unfoldable pub print_stack : ℕ → ℕ → ℕ → Option (List CString) → Outcome (List ℕ)
unfolding measured filled
print_stack garbage i sz none = if ltb i sz then fault else ok (backtrace_str ++ 0 ∷ [])
print_stack garbage i sz (some fnames) = do
  let names = drop i fnames
  let msg_len = measured names (length backtrace_str)
  msg ← store (replicate (msg_len + 1) garbage) 0 (backtrace_str ++ 0 ∷ [])
  filled names (length backtrace_str) msg
