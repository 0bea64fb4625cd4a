-- ===== src/Files/Tests.antt =====
-- A file of four bytes of which three can be read, and a device that cannot seek.
use ccore.Base.{◌≡◌, refl, Option, none, some, [], ◌∷◌, take, arith}
use ccore.Base.CString.{CString}
use ccore.Base.Outcome.{ok, fault}
use ccore.Files.{Stream, path_read}
use ccore.Files.Content.{path_read-block_of}

abbrev short_file : Stream
short_file = record { end_pos = some 4; bytes = λ n. take n (1 ∷ 2 ∷ 3 ∷ []) }

abbrev device : Stream
device = record { end_pos = none; bytes = λ n. [] }

-- The empty path is the device.
abbrev fopen : CString → CString → Option Stream
fopen [] mode = some device
fopen (c ∷ path) mode = some short_file

path_read-block_of_example :
    (path_read fopen 9 (b'a' ∷ []) ≡ ok (some (1 ∷ 2 ∷ 3 ∷ 9 ∷ 0 ∷ [], 4)))
    × (path_read fopen 9 [] ≡ fault)
path_read-block_of_example =
    path_read-block_of fopen 9 4 (b'a' ∷ []) {file = short_file} {mute = device} [] refl refl
      (omega arith) (omega arith) refl refl
