-- ===== src/Paths/Tests.antt =====
-- Paths of a POSIX system.
use ccore.Base.{ℕ, ◌≤◌, ◌≡◌, refl, true, List, [], ◌∷◌, ◌++◌, replicate, arith}
use ccore.Base.CString.{CString}
use ccore.Base.Outcome.{Returns}
use ccore.Paths.{is_path_sep, path_rtrim_i}
use ccore.Paths.Trim.{separators, path_rtrim_i-cut, path_rtrim_i-short}

-- `usr/` and `lib`
abbrev parts : List CString
parts = (b'u' ∷ b's' ∷ b'r' ∷ b'/' ∷ []) ∷ (b'l' ∷ b'i' ∷ b'b' ∷ []) ∷ []

abbrev buffer : List ℕ
buffer = replicate 6 255

slash : is_path_sep b'/' ≡ true
unfolding is_path_sep
slash = refl

-- `a/b/c`, for one directory
path_rtrim_i-cut_example :
    Returns
      (path_rtrim_i
        (b'a' ∷ b'/' ∷ b'b' ∷ b'/' ∷ b'c' ∷ [])
        []
        (separators (b'b' ∷ b'/' ∷ b'c' ∷ [])))
      λ out. (left : List ℕ) × (out ≡ (b'a' ∷ b'/' ∷ []) ++ 0 ∷ left)
path_rtrim_i-cut_example =
    path_rtrim_i-cut b'a' [] b'/' (b'b' ∷ b'/' ∷ b'c' ∷ []) [] (omega arith) slash

few : separators (b'u' ∷ b's' ∷ b'r' ∷ []) ≤ 0
unfolding is_path_sep
few = ground arith

-- `/usr`
path_rtrim_i-short_example :
    Returns
      (path_rtrim_i (b'/' ∷ b'u' ∷ b's' ∷ b'r' ∷ []) [] 0)
      λ out. (left : List ℕ) × (out ≡ b'/' ∷ b'u' ∷ 0 ∷ left)
path_rtrim_i-short_example =
    path_rtrim_i-short b'/' b'u' (b's' ∷ b'r' ∷ []) [] 0 (omega arith) (omega arith) few
