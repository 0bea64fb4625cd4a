-- ===== src/Files/Content.antt =====
-- What the block holds that a file is read into.
use mathlib.Core.List.{append_assoc}
use ccore.Base.{
  ℕ, zero, suc, ◌+◌, ◌-◌, ◌%◌, ◌<◌, ◌≤◌, ◌≡◌, refl, sym, ap, ◌∙◌, Option, none, some, List, [], ◌∷◌,
  ◌++◌, length, length-append, length-replicate, drop, replicate, arith,
}
use ccore.Base.Buffer.{store, store-append}
use ccore.Base.CString.{CString}
use ccore.Base.Outcome.{Outcome, ok, fault, ◌>>=◌}
use ccore.Base.Words.{size_mod}
use ccore.Files.{Stream, mode_string, file_open, size_at, file_read, read_opened, path_read}

-- A block of `suc n` bytes, behind the first `k` of them.
drop-replicate :
    (k n garbage : ℕ)
    → k ≤ n
    → drop k (replicate (suc n) garbage) ≡ replicate (n - k) garbage ++ garbage ∷ []
drop-replicate zero zero garbage h = refl
drop-replicate zero (suc n) garbage h =
    let e : suc (n - 0) ≡ suc n - 0 = omega arith in
    ap (λ l. garbage ∷ l) (drop-replicate zero n garbage (omega arith))
    ∙ ap (λ k. replicate k garbage ++ garbage ∷ []) e
drop-replicate (suc k) zero garbage h = absurd (omega arith)
drop-replicate (suc k) (suc n) garbage h =
    let e : n - k ≡ suc n - suc k = omega arith in
    drop-replicate k n garbage (omega arith) ∙ ap (λ k. replicate k garbage ++ garbage ∷ []) e

-- What is in the block of a file of `n` bytes of which `fread` gives some.
abbrev pub block_of : List ℕ → ℕ → ℕ → List ℕ
block_of bytes n garbage = (bytes ++ replicate (n - length bytes) garbage) ++ 0 ∷ []

size_fits : (n : ℕ) → n + 1 < size_mod → (n + 1) % size_mod ≡ suc n
size_fits n h = omega arith

filled :
    (bytes : List ℕ) (n garbage : ℕ)
    → length bytes ≤ n
    → n + 1 < size_mod
    → store (replicate ((n + 1) % size_mod) garbage) 0 bytes
      ≡ ok ((bytes ++ replicate (n - length bytes) garbage) ++ garbage ∷ [])
filled bytes n garbage h fits =
    ap (λ k. store (replicate k garbage) 0 bytes) (size_fits n fits)
    ∙ store-append [] (replicate (suc n) garbage) bytes
        (omega (arith, length-replicate (suc n) garbage))
    ∙ ap (λ l. ok (bytes ++ l)) (drop-replicate (length bytes) n garbage h)
    ∙ ap ok (sym (append_assoc bytes (replicate (n - length bytes) garbage) (garbage ∷ [])))

closed :
    (pre : List ℕ) (n garbage : ℕ)
    → n ≡ length pre
    → store (pre ++ garbage ∷ []) n (0 ∷ []) ≡ ok (pre ++ 0 ∷ [])
closed pre n garbage at =
    ap (λ k. store (pre ++ garbage ∷ []) k (0 ∷ [])) at
    ∙ store-append pre (garbage ∷ []) (0 ∷ []) (omega arith)

file_read-block_of :
    (garbage n : ℕ) (file : Stream)
    → file.end_pos ≡ some n
    → n + 1 < size_mod
    → length (file.bytes n) ≤ n
    → file_read garbage file ≡ ok (block_of (file.bytes n) n garbage, n)
unfolding file_read size_at
file_read-block_of garbage n file ends fits h =
    let bytes = file.bytes n in
    let pre = bytes ++ replicate (n - length bytes) garbage in
    let whole : n ≡ length pre = omega (
      arith,
      length-append bytes (replicate (n - length bytes) garbage),
      length-replicate (n - length bytes) garbage,
    ) in
    rw (ends, filled bytes n garbage h fits, closed pre n garbage whole)

-- The block of no bytes takes nothing.
no_block :
    (bytes : List ℕ)
    → let call : Outcome (List ℕ × ℕ) = (do
      block ← store [] 0 bytes
      block' ← store block (size_mod - 1) (0 ∷ [])
      ok (block', size_mod - 1)) in
      call ≡ fault
unfolding store
no_block [] = refl
no_block (b ∷ bytes) = refl

mute_fault : (garbage : ℕ) (file : Stream) → file.end_pos ≡ none → file_read garbage file ≡ fault
unfolding file_read size_at
mute_fault garbage file ends = rw (ends, no_block (file.bytes (size_mod - 1)))

-- A file that opens for reading and whose end is at `n`, where `n + 1` is below `2^64` and `fread`
-- gives `n` bytes at most: `ccfs_path_read` returns a block of `n + 1`
-- bytes and the size `n`; the block holds what `fread` gave, is not written behind that, and ends in a
-- NUL. Where there is no end, since the stream cannot seek, the write of the NUL is through NULL.
pub path_read-block_of :
    (fopen : CString → CString → Option Stream) (garbage n : ℕ) (path : CString)
    {file mute : Stream} (device : CString)
    → fopen path (b'r' ∷ b'b' ∷ []) ≡ some file
    → file.end_pos ≡ some n
    → n + 1 < size_mod
    → length (file.bytes n) ≤ n
    → fopen device (b'r' ∷ b'b' ∷ []) ≡ some mute
    → mute.end_pos ≡ none
    → (path_read fopen garbage path ≡ ok (some (block_of (file.bytes n) n garbage, n)))
      × (path_read fopen garbage device ≡ fault)
unfolding path_read file_open mode_string read_opened
path_read-block_of fopen garbage n path {file} {mute} device opens ends fits h opens' mute_end = (
  ap (read_opened garbage) opens
      ∙ ap (λ run. run >>= λ out. ok (some out)) (file_read-block_of garbage n file ends fits h),
  ap (read_opened garbage) opens'
      ∙ ap (λ run. run >>= λ out. ok (some out)) (mute_fault garbage mute mute_end),
)
