-- ===== src/Strings.antt =====
-- include/ccore/string.h: bounded copies of strings.
pub mod Copy
mod Tests
use ccore.Base.{
  ℕ, zero, suc, ◌+◌, ◌-◌, ◌%◌, Bool, true, false, not, List, [], ◌∷◌, ◌++◌, ◌==◌, ltb,
  if◌then◌else◌, length, take, replicate,
}
use ccore.Base.Buffer.{store}
use ccore.Base.CString.{CString}
use ccore.Base.Outcome.{Build, Outcome, ok, ◌>>=◌, ◌>>◌, assert}
use ccore.Base.Words.{size_mod}

-- `for (l = 0; l + 1 < cap && src[l] != '\0'; l++)`, on what is behind `src[l]`.
unfoldable pub scan : ℕ → ℕ → CString → ℕ
scan cap l [] = l
scan cap l (c ∷ src) = let further = scan cap (suc l) src in if ltb (l + 1) cap then further else l

-- `MIN(a, b)`
unfoldable pub min_size : ℕ → ℕ → ℕ
min_size a b = if ltb a b then a else b

unfoldable pub string_copy : Build → List ℕ → CString → ℕ → Outcome (List ℕ)
unfolding scan min_size store
string_copy build dest src cap =
    let last = (cap + size_mod - 1) % size_mod in
    assert build (not (cap == 0)) >> (do
      dest' ← store dest 0 (take (min_size last (scan cap 0 src + 1)) (src ++ 0 ∷ []))
      store dest' last (0 ∷ []))

-- The block that `cc_alloc` returns has a byte for each byte of the string and its terminator; they
-- are not initialised, and are taken from `garbage`.
unfoldable pub string_duplicate : Build → ℕ → CString → Outcome (List ℕ)
unfolding string_copy
string_duplicate build garbage str =
    let size = length str + 1 in string_copy build (replicate size garbage) str size
