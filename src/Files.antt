-- ===== src/Files.antt =====
-- src/filesystem.c: opening and reading files. What `fopen`, `ftell` and `fread` answer is an
-- argument. The message of `ccfs_file_open` is left out.
pub mod Content
mod Tests
use ccore.Base.{ℕ, ◌+◌, ◌-◌, ◌%◌, ◌^◌, Option, none, some, List, [], ◌∷◌, replicate}
use ccore.Base.Buffer.{store}
use ccore.Base.CString.{CString}
use ccore.Base.Outcome.{Outcome, ok, ◌>>=◌}
use ccore.Base.Words.{size_mod}

-- `ccfs_mode_t`
pub data Mode : Type 0 where
  read write append : Mode

-- An open file: what `ftell` says at its end, where `none` is -1, and the bytes that `fread` puts
-- into a buffer of a size.
pub record Stream : Type 0 where
  pub end_pos : Option ℕ
  pub bytes : ℕ → List ℕ

unfoldable pub mode_string : Mode → CString
mode_string read = b'r' ∷ b'b' ∷ []
mode_string write = b'w' ∷ b'b' ∷ []
mode_string append = b'a' ∷ b'b' ∷ []

-- `none` is NULL.
unfoldable pub file_open : (CString → CString → Option Stream) → CString → Mode → Option Stream
unfolding mode_string
file_open fopen path mode = fopen path (mode_string mode)

-- `*size = ftell(file);`
unfoldable pub size_at : Option ℕ → ℕ
size_at none = size_mod - 1
size_at (some n) = n

-- The block and `*size`. The bytes of a new block are `garbage`; a block of no bytes is NULL.
unfoldable pub file_read : ℕ → Stream → Outcome (List ℕ × ℕ)
unfolding size_at
file_read garbage file = do
  let size = size_at file.end_pos
  block ← store (replicate ((size + 1) % size_mod) garbage) 0 (file.bytes size)
  block' ← store block size (0 ∷ [])
  ok (block', size)

-- `ccfs_path_read` behind the open: `none` is NULL, and then `*size` is not written.
unfoldable pub read_opened : ℕ → Option Stream → Outcome (Option (List ℕ × ℕ))
unfolding file_read
read_opened garbage none = ok none
read_opened garbage (some file) = do out ← file_read garbage file; ok (some out)

unfoldable pub path_read :
    (CString → CString → Option Stream) → ℕ → CString → Outcome (Option (List ℕ × ℕ))
unfolding file_open read_opened
path_read fopen garbage path = read_opened garbage (file_open fopen path read)
