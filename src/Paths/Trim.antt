-- ===== src/Paths/Trim.antt =====
-- What `ccfs_path_rtrim_i` leaves of a path.
use ccore.Base.{
  ℕ, zero, suc, ◌+◌, ◌-◌, ◌%◌, ◌^◌, ◌==◌, false, ltb, leb, ◌<◌, ◌≤◌, ◌≡◌, refl, sym, ap, ◌∙◌, inl,
  inr, true, List, [], ◌∷◌, ◌++◌, lt→ltb, drop, if◌then◌else◌, length, length-append, take,
  take_all, arith, Bool-cases,
}
use mathlib.Core.List.{append_assoc}
use ccore.Base.Buffer.{store, store_after}
use ccore.Base.CString.{CString}
use ccore.Base.Outcome.{ok, fault, Returns}
use ccore.Paths.{is_path_sep, byte_at, rtrim_loop, path_rtrim_i, dirs_limit}

-- The number of separators in a text.
abbrev pub separators : CString → ℕ
separators [] = 0
separators (c ∷ s) = if is_path_sep c then suc (separators s) else separators s

byte_at-append : (pre s : CString) (i : ℕ) → byte_at (pre ++ s) (length pre + i) ≡ byte_at s i
byte_at-append [] s i = ap (byte_at s) (omega arith)
byte_at-append (x ∷ pre) s i =
    let next : length (x ∷ pre) + i ≡ suc (length pre + i) = omega arith in
    ap (byte_at ((x ∷ pre) ++ s)) next ∙ byte_at-append pre s i

separators-take :
    (s : CString) (n : ℕ)
    → n < length s
    → separators (take (suc n) s)
      ≡ separators (take n s) + (if is_path_sep (byte_at s n) then 1 else 0)
separators-take [] n h = absurd (omega arith)
separators-take (c ∷ s) zero h = ground arith
separators-take (c ∷ s) (suc n) h = ground (arith, separators-take s n (omega arith))

rtrim_loop-stopped : (path : CString) (limit i : ℕ) → rtrim_loop path limit limit i ≡ i
unfolding rtrim_loop
rtrim_loop-stopped path limit zero = refl
rtrim_loop-stopped path limit (suc i) = ground arith

-- One round of the loop at a byte, below the limit.
rtrim_loop-step :
    (path : CString) (limit dirs i : ℕ)
    → dirs < limit
    → rtrim_loop path limit dirs (suc i)
      ≡ rtrim_loop path limit (dirs + (if is_path_sep (byte_at path (suc i)) then 1 else 0)) i
unfolding rtrim_loop
rtrim_loop-step path limit dirs i below = elim (Bool-cases (is_path_sep (byte_at path (suc i)))) [
  | inl sep ↦ rw (lt→ltb dirs limit below, sep) (ap (λ d. rtrim_loop path limit d i) (omega arith))
  | inr other ↦
      rw (lt→ltb dirs limit below, other) (ap (λ d. rtrim_loop path limit d i) (omega arith))
]

-- The loop over a text at the end of the path with no more than `num_dirs` separators.
rtrim_loop-walk :
    (x : ℕ) (a t : CString) (num_dirs dirs n : ℕ)
    → n ≤ length t
    → dirs + separators (take n t) ≤ num_dirs
    → rtrim_loop ((x ∷ a) ++ t) (num_dirs + 1) dirs (length a + n)
      ≡ rtrim_loop ((x ∷ a) ++ t) (num_dirs + 1) (dirs + separators (take n t)) (length a)
rtrim_loop-walk x a t num_dirs dirs zero within few =
    ap (λ i. rtrim_loop ((x ∷ a) ++ t) (num_dirs + 1) dirs i) (omega arith)
    ∙ ap (λ d. rtrim_loop ((x ∷ a) ++ t) (num_dirs + 1) d (length a)) (omega arith)
rtrim_loop-walk x a t num_dirs dirs (suc n) within few =
    let path = (x ∷ a) ++ t in
    let found : ℕ = if is_path_sep (byte_at t n) then 1 else 0 in
    let sum = separators-take t n within in
    let index : suc (length a + n) ≡ length (x ∷ a) + n = omega arith in
    let at : byte_at path (suc (length a + n)) ≡ byte_at t n =
      ap (byte_at path) index ∙ byte_at-append (x ∷ a) t n in
    ap (λ i. rtrim_loop path (num_dirs + 1) dirs i) (omega arith)
    ∙ rtrim_loop-step path (num_dirs + 1) dirs (length a + n) (omega arith)
    ∙ ap
        (λ c.
          rtrim_loop path (num_dirs + 1) (dirs + (if is_path_sep c then 1 else 0)) (length a + n))
        at
    ∙ rtrim_loop-walk x a t num_dirs (dirs + found) n (omega arith) (omega (arith, sum, few))
    ∙ ap (λ d. rtrim_loop path (num_dirs + 1) d (length a)) (omega (arith, sum))

length-take_all : (s : CString) → separators (take (length s) s) ≡ separators s
length-take_all s = ap separators (take_all s)

-- Before the separator that has `separators b` others behind it the loop stops.
rtrim_loop-at :
    (x : ℕ) (a : CString) (s : ℕ) (b : CString)
    → is_path_sep s ≡ true
    → rtrim_loop (x ∷ (a ++ s ∷ b)) (separators b + 1) 0 (length (a ++ s ∷ b)) ≡ length a
rtrim_loop-at x a s b sep =
    ap (λ i. rtrim_loop path limit 0 i) first_index
    ∙ ap (λ p. rtrim_loop p limit 0 (length (a ++ s ∷ []) + length b)) (sym split)
    ∙ rtrim_loop-walk x (a ++ s ∷ []) b (separators b) 0 (length b) (omega arith)
        (omega (arith, length-take_all b))
    ∙ ap (λ p. rtrim_loop p limit (0 + separators (take (length b) b)) (length (a ++ s ∷ []))) split
    ∙ ap (λ i. rtrim_loop path limit (0 + separators (take (length b) b)) i) second_index
    ∙ rtrim_loop-step path limit (0 + separators (take (length b) b)) (length a)
        (omega (arith, length-take_all b))
    ∙ ap (λ d. rtrim_loop path limit d (length a)) reached
    ∙ rtrim_loop-stopped path limit (length a)
  where
    path : CString
    path = x ∷ (a ++ s ∷ b)

    limit : ℕ
    limit = separators b + 1

    split : (x ∷ (a ++ s ∷ [])) ++ b ≡ path
    split = append_assoc (x ∷ a) (s ∷ []) b

    first_index : length (a ++ s ∷ b) ≡ length (a ++ s ∷ []) + length b
    first_index = omega (arith, length-append a (s ∷ b), length-append a (s ∷ []))

    second_index : length (a ++ s ∷ []) ≡ suc (length a)
    second_index = omega (arith, length-append a (s ∷ []))

    index : suc (length a) ≡ length (x ∷ a) + 0
    index = omega arith

    at : byte_at path (suc (length a)) ≡ s
    at = ap (byte_at path) index ∙ byte_at-append (x ∷ a) (s ∷ b) 0

    reached :
        0
          + separators (take (length b) b)
          + (if is_path_sep (byte_at path (suc (length a))) then 1 else 0)
        ≡ limit
    reached = rw (at, sep) (omega (arith, length-take_all b))

separators_le : (s : CString) → separators s ≤ length s
separators_le [] = omega arith
separators_le (c ∷ s) = ground (arith, separators_le s)

path_rtrim_i-store :
    (x : ℕ) (path : CString) (room : List ℕ) (num_dirs : ℕ)
    → length (x ∷ path) < 2 ^ 31
    → num_dirs + 1 < 2 ^ 31
    → path_rtrim_i (x ∷ path) room num_dirs
      ≡ store
          (x ∷ path ++ 0 ∷ room)
          (rtrim_loop (x ∷ path) (num_dirs + 1) 0 (length path) + 2)
          (0 ∷ [])
unfolding path_rtrim_i dirs_limit
path_rtrim_i-store x path room num_dirs small few =
    let whole : length (x ∷ path) % 2 ^ 32 ≡ suc (length path) = omega arith in
    let some_bytes : (suc (length path) == 0) ≡ false = ground arith in
    let fits : leb (2 ^ 31) (suc (length path)) ≡ false = ground arith in
    let no_overflow : (num_dirs == 2 ^ 31 - 1) ≡ false = ground arith in
    let positive : ltb num_dirs (2 ^ 31) ≡ true = ground arith in
    let last : suc (length path) - 1 ≡ length path = omega arith in
    rw (whole, fits, no_overflow, positive, some_bytes, last) refl

-- In a path of less than `2^31` bytes, where exactly `num_dirs` separators follow one that is not
-- the first byte, that one is the last byte that `ccfs_path_rtrim_i` keeps of the path: what is
-- behind it, `num_dirs + 1` parts between separators, is cut off.
pub path_rtrim_i-cut :
    (x : ℕ) (a : CString) (s : ℕ) (b : CString) (room : List ℕ)
    → length (x ∷ (a ++ s ∷ b)) < 2 ^ 31
    → is_path_sep s ≡ true
    → Returns
        (path_rtrim_i (x ∷ (a ++ s ∷ b)) room (separators b))
        λ out. (left : List ℕ) × (out ≡ ((x ∷ a) ++ s ∷ []) ++ 0 ∷ left)
path_rtrim_i-cut x a s b room small sep = (
  ((x ∷ a) ++ s ∷ []) ++ 0 ∷ left,
  path_rtrim_i-store x (a ++ s ∷ b) room num_dirs small few
      ∙ ap (λ buffer. store buffer (end + 2) (0 ∷ [])) buffer_eq
      ∙ store_after ((x ∷ a) ++ s ∷ []) (b ++ 0 ∷ room) (0 ∷ []) (end + 2) place
          (omega (arith, length-append b (0 ∷ room)))
      ∙ ap ok (append_assoc ((x ∷ a) ++ s ∷ []) (0 ∷ []) left),
  (left, refl),
)
  where
    left : List ℕ
    left = drop 1 (b ++ 0 ∷ room)

    num_dirs : ℕ
    num_dirs = separators b

    few : num_dirs + 1 < 2 ^ 31
    few = omega (arith, separators_le b, length-append a (s ∷ b))

    path : CString
    path = x ∷ (a ++ s ∷ b)

    end : ℕ
    end = rtrim_loop path (num_dirs + 1) 0 (length (a ++ s ∷ b))

    buffer_eq : path ++ 0 ∷ room ≡ ((x ∷ a) ++ s ∷ []) ++ (b ++ 0 ∷ room)
    buffer_eq =
        append_assoc (x ∷ a) (s ∷ b) (0 ∷ room)
        ∙ sym (append_assoc (x ∷ a) (s ∷ []) (b ++ 0 ∷ room))

    end_eq : end ≡ length a
    end_eq = rtrim_loop-at x a s b sep

    place : end + 2 ≡ length ((x ∷ a) ++ s ∷ [])
    place = omega (arith, end_eq, length-append (x ∷ a) (s ∷ []))

-- Where no more than `num_dirs` separators follow the first byte of a path of at least two and less
-- than `2^31` bytes, and `num_dirs` is not negative and not the largest `int`, `ccfs_path_rtrim_i` keeps those two bytes and nothing else of it.
pub path_rtrim_i-short :
    (x y : ℕ) (b : CString) (room : List ℕ) (num_dirs : ℕ)
    → length (x ∷ y ∷ b) < 2 ^ 31
    → num_dirs + 1 < 2 ^ 31
    → separators (y ∷ b) ≤ num_dirs
    → Returns
        (path_rtrim_i (x ∷ y ∷ b) room num_dirs)
        λ out. (left : List ℕ) × (out ≡ x ∷ y ∷ 0 ∷ left)
path_rtrim_i-short x y b room num_dirs small bound few =
    let whole = length-take_all (y ∷ b) in
    let from : length (y ∷ b) ≡ 0 + length (y ∷ b) = omega arith in
    let last : rtrim_loop (x ∷ y ∷ b) (num_dirs + 1) 0 (length (y ∷ b)) ≡ 0 =
      ap (λ i. rtrim_loop (x ∷ y ∷ b) (num_dirs + 1) 0 i) from
      ∙ rtrim_loop-walk x [] (y ∷ b) num_dirs 0 (length (y ∷ b)) (omega arith)
          (omega (arith, whole))
      ∙ (unfold rtrim_loop in refl) in
    let place : rtrim_loop (x ∷ y ∷ b) (num_dirs + 1) 0 (length (y ∷ b)) + 2 ≡ 2 =
      omega (arith, last) in
    (
      x ∷ y ∷ 0 ∷ drop 1 (b ++ 0 ∷ room),
      path_rtrim_i-store x (y ∷ b) room num_dirs small bound
          ∙ ap (λ i. store (x ∷ y ∷ (b ++ 0 ∷ room)) i (0 ∷ [])) place
          ∙ store_after (x ∷ y ∷ []) (b ++ 0 ∷ room) (0 ∷ []) 2 refl
              (omega (arith, length-append b (0 ∷ room))),
      (drop 1 (b ++ 0 ∷ room), refl),
    )

-- On a path of one byte in a buffer that is just large enough for it, `ccfs_path_rtrim_i` writes
-- behind the buffer.
path_rtrim_i-fault :
    (x num_dirs : ℕ) → num_dirs + 1 < 2 ^ 31 → path_rtrim_i (x ∷ []) [] num_dirs ≡ fault
unfolding rtrim_loop store
path_rtrim_i-fault x num_dirs bound = path_rtrim_i-store x [] [] num_dirs (omega arith) bound ∙ refl
