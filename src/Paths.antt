-- ===== src/Paths.antt =====
-- src/filesystem.c: joining the parts of a path in a buffer, and cutting parts off its end.
pub mod Join
pub mod Trim
mod Tests
use ccore.Base.{
  ℕ, zero, suc, ◌+◌, ◌-◌, ◌%◌, ◌^◌, Bool, true, false, ◌||◌, Option, none, some, List, [], ◌∷◌,
  ◌++◌, ◌==◌, ltb, leb, if◌then◌else◌, length, take, replicate,
}
use ccore.Base.Buffer.{store}
use ccore.Base.CString.{CString}
use ccore.Base.Outcome.{Outcome, ok, fault, ◌>>=◌}
use ccore.Base.Words.{size_mod}

unfoldable pub is_path_sep : ℕ → Bool
is_path_sep c = (c == b'\\') || (c == b'/')

-- `s[i]`, which is the NUL behind the last byte
abbrev pub byte_at : CString → ℕ → ℕ
byte_at [] i = 0
byte_at (c ∷ s) zero = c
byte_at (c ∷ s) (suc i) = byte_at s i

-- `while(length && is_path_sep(comp[length-1])) length -= 1;`
unfoldable pub trimmed_from : CString → ℕ → ℕ
unfolding is_path_sep
trimmed_from comp zero = zero
trimmed_from comp (suc i) =
    let shorter = trimmed_from comp i in if is_path_sep (byte_at comp i) then shorter else suc i

unfoldable pub path_component_length : CString → ℕ
unfolding trimmed_from
path_component_length comp = trimmed_from comp (length comp)

-- `path_sep` is `CCFS_PATH_SEP`.
module _ (path_sep : ℕ) where
  -- The `n` bytes that `pathcpy` writes.
  unfoldable pub path_bytes : CString → ℕ → List ℕ
  unfolding is_path_sep
  path_bytes src zero = []
  path_bytes [] (suc n) = 0 ∷ path_bytes [] n
  path_bytes (c ∷ src) (suc n) = (if is_path_sep c then path_sep else c) ∷ path_bytes src n

  unfoldable pub pathcpy : List ℕ → ℕ → CString → ℕ → Outcome (List ℕ)
  unfolding path_bytes store
  pathcpy out head src n = store out head (path_bytes src n)

  -- The loop over the arguments; it leaves the buffer and `head`.
  unfoldable pub concat_loop : ℕ → List ℕ → ℕ → Bool → List CString → Outcome (List ℕ × ℕ)
  unfolding path_component_length pathcpy
  concat_loop size out head is_first [] = ok (out, head)
  concat_loop size out head is_first (comp ∷ comps) =
      let comp_length = path_component_length comp in
      let added : Outcome (List ℕ × ℕ) = (do
        (out', head') ←
            if is_first
            then ok (out, head)
            else (do out' ← store out head (path_sep ∷ []); ok (out', (head + 1) % size_mod))
        out'' ← pathcpy out' head' comp comp_length
        concat_loop size out'' ((head' + comp_length) % size_mod) false comps) in
      if leb size (((head + comp_length) % size_mod + 1) % size_mod) then ok (out, head) else added

  -- The buffer behind the call, and what is returned.
  unfoldable pub path_concat : List ℕ → ℕ → List CString → Outcome (List ℕ × ℕ)
  unfolding concat_loop
  path_concat out size comps = do
    (out', head) ← concat_loop size out 0 true comps
    out'' ← store out' head (0 ∷ [])
    ok (out'', head)

-- The loop of `ccfs_path_rtrim_i`, with the index of `head`; `limit` is `num_dirs + 1`, or 0 where that is negative.
unfoldable pub rtrim_loop : CString → ℕ → ℕ → ℕ → ℕ
unfolding is_path_sep
rtrim_loop path limit dirs zero = zero
rtrim_loop path limit dirs (suc i) =
    let skipped = rtrim_loop path limit dirs i in
    let counted = rtrim_loop path limit (suc dirs) i in
    if ltb dirs limit
    then if is_path_sep (byte_at path (suc i)) then counted else skipped
    else suc i

-- `num_dirs+1` as the loop compares it with 0 and more: not below 0.
unfoldable pub dirs_limit : ℕ → ℕ
dirs_limit num_dirs = if ltb num_dirs (2 ^ 31) then num_dirs + 1 else 0

-- `room` is what the buffer has behind the terminator of the path, and `num_dirs` the 32-bit pattern
-- of an `int`. `int length` is `strlen(path)` cut to 32 bits; where it is 0 or negative, `head` is
-- outside of the buffer, and `num_dirs+1` overflows for the largest `int`.
unfoldable pub path_rtrim_i : CString → List ℕ → ℕ → Outcome (List ℕ)
unfolding rtrim_loop store dirs_limit
path_rtrim_i path room num_dirs =
    let size = length path % 2 ^ 32 in
    if (size == 0) || leb (2 ^ 31) size || (num_dirs == 2 ^ 31 - 1)
    then fault
    else store (path ++ 0 ∷ room) (rtrim_loop path (dirs_limit num_dirs) 0 (size - 1) + 2) (0 ∷ [])
