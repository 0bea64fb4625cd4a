-- ===== src/Base/Buffer.antt =====
-- Buffers: a write of bytes from an index on.
use Prim.Native.Nat.{ℕ, zero, suc, ◌+◌, ◌≤◌, ◌<◌}
use mathlib.Core.Path.{◌≡◌, refl, sym, ap, ◌∙◌}
use mathlib.Core.List.{List, [], ◌∷◌, ◌++◌, append_assoc}
use native.Mathlib.Omega.{arith}
use ccore.Base.Lists.{length, drop}
use ccore.Base.Outcome.{Outcome, ok, fault, ◌>>=◌}

-- Outside of the buffer is a fault.
unfoldable pub store : List ℕ → ℕ → List ℕ → Outcome (List ℕ)
store buffer zero [] = ok buffer
store [] zero (b ∷ bytes) = fault
store (x ∷ buffer) zero (b ∷ bytes) = do rest ← store buffer zero bytes; ok (b ∷ rest)
store [] (suc i) bytes = fault
store (x ∷ buffer) (suc i) bytes = do rest ← store buffer i bytes; ok (x ∷ rest)

pub store-append :
    (pre rest bytes : List ℕ)
    → length bytes ≤ length rest
    → store (pre ++ rest) (length pre) bytes ≡ ok (pre ++ (bytes ++ drop (length bytes) rest))
unfolding store
store-append [] rest [] h = refl
store-append [] [] (b ∷ bytes) h = absurd (omega arith)
store-append [] (x ∷ rest) (b ∷ bytes) h = rw (store-append [] rest bytes (omega arith)) refl
store-append (x ∷ pre) rest bytes h = rw (store-append pre rest bytes h) refl

pub store_after :
    (pre rest bytes : List ℕ) (i : ℕ)
    → i ≡ length pre
    → length bytes ≤ length rest
    → store (pre ++ rest) i bytes ≡ ok ((pre ++ bytes) ++ drop (length bytes) rest)
store_after pre rest bytes i at h =
    ap (λ j. store (pre ++ rest) j bytes) at
    ∙ store-append pre rest bytes h
    ∙ ap ok (sym (append_assoc pre bytes (drop (length bytes) rest)))

pub length-drop : (n : ℕ) (xs : List ℕ) → n ≤ length xs → n + length (drop n xs) ≡ length xs
length-drop zero xs h = omega arith
length-drop (suc n) [] h = absurd (omega arith)
length-drop (suc n) (x ∷ xs) h = omega (arith, length-drop n xs (omega arith))

-- A write behind the front of a buffer leaves the front as it is.
pub store_behind :
    (pre rest : List ℕ) (i byte : ℕ)
    → length pre ≤ i
    → i < length pre + length rest
    → (left : List ℕ) × (store (pre ++ rest) i (byte ∷ []) ≡ ok (pre ++ left))
      × (length left ≡ length rest)
unfolding store
store_behind [] [] i byte lo hi = absurd (omega arith)
store_behind [] (x ∷ rest) zero byte lo hi = (byte ∷ rest, refl, refl)
store_behind [] (x ∷ rest) (suc i) byte lo hi =
    let (left, run, same) = store_behind [] rest i byte (omega arith) (omega arith) in
    (x ∷ left, rw run refl, ap suc same)
store_behind (p ∷ pre) rest zero byte lo hi = absurd (omega arith)
store_behind (p ∷ pre) rest (suc i) byte lo hi =
    let (left, run, same) = store_behind pre rest i byte (omega arith) (omega arith) in
    (left, rw run refl, same)
