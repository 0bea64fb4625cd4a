-- ===== src/Strings/Copy.antt =====
-- What a copy leaves in the buffer.
use ccore.Base.{
  ℕ, zero, suc, ◌+◌, ◌-◌, ◌%◌, ◌<◌, ◌≤◌, ◌≡◌, refl, sym, ap, ◌∙◌, inl, inr, not, List, [], ◌∷◌,
  ◌++◌, ◌==◌, ltb, length, length-append, length-replicate, take, drop, replicate, arith,
  Bool-cases,
}
use mathlib.Core.List.{append_assoc}
use ccore.Base.Buffer.{store, store_after, store_behind, length-drop}
use ccore.Base.CString.{CString}
use ccore.Base.Outcome.{Build, debug, release, ok, ◌>>=◌, assert, Returns}
use ccore.Base.Words.{size_mod}
use ccore.Strings.{scan, min_size, string_copy, string_duplicate}

scan_short :
    (cap l : ℕ) (src : CString) → l + length src + 1 ≤ cap → scan cap l src ≡ l + length src
unfolding scan
scan_short cap l [] h = omega arith
scan_short cap l (c ∷ src) h = ground (arith, scan_short cap (suc l) src (omega arith))

scan_long :
    (cap l : ℕ) (src : CString) → l < cap → cap ≤ l + length src + 1 → scan cap l src + 1 ≡ cap
unfolding scan
scan_long cap l [] some h = omega arith
scan_long cap l (c ∷ src) some h = elim (Bool-cases (ltb (l + 1) cap)) [
  | inl more ↦ rw more (scan_long cap (suc l) src (ground arith) (omega arith))
  | inr full ↦ rw full (ground arith)
]

take_within : (n : ℕ) (xs ys : List ℕ) → n ≤ length xs → take n (xs ++ ys) ≡ take n xs
take_within zero xs ys h = refl
take_within (suc n) [] ys h = absurd (omega arith)
take_within (suc n) (x ∷ xs) ys h = ap (λ l. x ∷ l) (take_within n xs ys (omega arith))

take_beyond : (n : ℕ) (xs : List ℕ) → length xs ≤ n → take n xs ≡ xs
take_beyond zero [] h = refl
take_beyond (suc n) [] h = refl
take_beyond zero (x ∷ xs) h = absurd (omega arith)
take_beyond (suc n) (x ∷ xs) h = ap (λ l. x ∷ l) (take_beyond n xs (omega arith))

length-take : (n : ℕ) (xs : List ℕ) → n ≤ length xs → length (take n xs) ≡ n
length-take zero xs h = refl
length-take (suc n) [] h = absurd (omega arith)
length-take (suc n) (x ∷ xs) h = ap suc (length-take n xs (omega arith))

module _ (build : Build) (dest : List ℕ) (src : CString) (n : ℕ) (small : n + 1 < size_mod)
    (fits : n < length dest) where
  checked : assert build (not (suc n == 0)) ≡ ok tt
  checked = by_build build
    where
      by_build : (build : Build) → assert build (not (suc n == 0)) ≡ ok tt
      by_build debug = ground arith
      by_build release = refl

  last_eq : (suc n + size_mod - 1) % size_mod ≡ n
  last_eq = omega arith

  -- A copy of `bytes` and the terminator.
  copy-eq :
      (bytes : List ℕ)
      → take (min_size n (scan (suc n) 0 src + 1)) (src ++ 0 ∷ []) ≡ bytes
      → string_copy build dest src (suc n)
        ≡ (store dest 0 bytes >>= λ dest'. store dest' n (0 ∷ []))
  unfolding string_copy
  copy-eq bytes e = rw (checked, last_eq, e) refl

  short_copy :
      length src < n
      → Returns
          (string_copy build dest src (suc n))
          λ out. (left : List ℕ) × (out ≡ take n src ++ 0 ∷ left) × (length out ≡ length dest)
  short_copy short =
      let bytes = src ++ 0 ∷ [] in
      let size = length-append src (0 ∷ []) in
      let count : min_size n (scan (suc n) 0 src + 1) ≡ length src + 1 =
        unfold min_size in ground (arith, scan_short (suc n) 0 src (omega arith)) in
      let whole : take (min_size n (scan (suc n) 0 src + 1)) bytes ≡ bytes =
        ap (λ k. take k bytes) count ∙ take_beyond (length src + 1) bytes (omega (arith, size)) in
      let rest = length-drop (length bytes) dest (omega (arith, size)) in
      let (left, run, same) =
        store_behind bytes (drop (length bytes) dest) n 0 (omega (arith, size))
          (omega (arith, rest)) in
      let shape : bytes ++ left ≡ take n src ++ 0 ∷ left =
        append_assoc src (0 ∷ []) left
        ∙ ap (λ l. l ++ 0 ∷ left) (sym (take_beyond n src (omega arith))) in
      (
        bytes ++ left,
        copy-eq bytes whole
            ∙ ap (λ o. o >>= λ dest'. store dest' n (0 ∷ []))
                (store_after [] dest bytes 0 refl (omega (arith, size)))
            ∙ run,
        (left, shape, omega (arith, length-append bytes left, same, rest)),
      )

  long_copy :
      n ≤ length src
      → Returns
          (string_copy build dest src (suc n))
          λ out. (left : List ℕ) × (out ≡ take n src ++ 0 ∷ left) × (length out ≡ length dest)
  long_copy long =
      let bytes = take n src in
      let size = length-take n src long in
      let count : min_size n (scan (suc n) 0 src + 1) ≡ n =
        unfold min_size in ground (arith, scan_long (suc n) 0 src (omega arith) (omega arith)) in
      let part : take (min_size n (scan (suc n) 0 src + 1)) (src ++ 0 ∷ []) ≡ bytes =
        ap (λ k. take k (src ++ 0 ∷ [])) count ∙ take_within n src (0 ∷ []) long in
      let rest = length-drop (length bytes) dest (omega (arith, size)) in
      let left = drop 1 (drop (length bytes) dest) in
      let behind = length-drop 1 (drop (length bytes) dest) (omega (arith, rest, size)) in
      (
        bytes ++ 0 ∷ left,
        copy-eq bytes part
            ∙ ap (λ o. o >>= λ dest'. store dest' n (0 ∷ []))
                (store_after [] dest bytes 0 refl (omega (arith, size)))
            ∙ store_after bytes (drop (length bytes) dest) (0 ∷ []) n (sym size)
                (omega (arith, rest, size))
            ∙ ap ok (append_assoc bytes (0 ∷ []) left),
        (left, refl, omega (arith, length-append bytes (0 ∷ left), behind, rest)),
      )

-- For a capacity of at least one and less than `2^64 - 1` bytes, in a buffer that has it,
-- `string_copy` writes inside the buffer, and leaves in it the string cut to the capacity less one,
-- with a NUL behind.
pub string_copy-take :
    (build : Build) (dest : List ℕ) (src : CString) (n : ℕ)
    → n + 1 < size_mod
    → n < length dest
    → Returns
        (string_copy build dest src (suc n))
        λ out. (left : List ℕ) × (out ≡ take n src ++ 0 ∷ left) × (length out ≡ length dest)
string_copy-take build dest src n small fits = elim (Bool-cases (ltb (length src) n)) [
  | inl short ↦ short_copy build dest src n small fits (ground arith)
  | inr long ↦ long_copy build dest src n small fits (ground arith)
]

nothing_left : (s left : List ℕ) → length (s ++ 0 ∷ left) ≡ length s + 1 → left ≡ []
nothing_left s [] h = refl
nothing_left s (x ∷ left) h = absurd (omega (arith, length-append s (0 ∷ x ∷ left)))

-- The block that `string_duplicate` returns for a string of less than `2^64 - 2` bytes holds that
-- string and its terminator.
pub string_duplicate-eq :
    (build : Build) (garbage : ℕ) (str : CString)
    → length str + 2 < size_mod
    → string_duplicate build garbage str ≡ ok (str ++ 0 ∷ [])
unfolding string_duplicate
string_duplicate-eq build garbage str small =
    let block = replicate (length str + 1) garbage in
    let size : length block ≡ length str + 1 = length-replicate (length str + 1) garbage in
    let cap : length str + 1 ≡ suc (length str) = omega arith in
    let (out, run, (left, shape, same)) =
      string_copy-take build block str (length str) (omega arith) (omega (arith, size)) in
    let whole : take (length str) str ≡ str = take_beyond (length str) str (omega arith) in
    let exact : out ≡ str ++ 0 ∷ left = shape ∙ ap (λ s. s ++ 0 ∷ left) whole in
    let none_left = nothing_left str left (sym (ap length exact) ∙ same ∙ size) in
    ap (string_copy build block str) cap ∙ run ∙ ap ok (exact ∙ ap (λ l. str ++ 0 ∷ l) none_left)
