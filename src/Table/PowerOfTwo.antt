-- ===== src/Table/PowerOfTwo.antt =====
-- `next_power_of_2`: the smear of the highest bit commutes with halving and its lowest bit is the
-- OR of 32 bits, so the result follows by recursion on the binary digits.
use Prim.Native.Nat.{bit_or, min, max}
use native.Mathlib.Nat.{pow-suc, mul_comm, div-div-eq-div-mul}
use mathlib.Core.Path.{ap₂}
use ccore.Base.{
  ℕ, zero, suc, ◌+◌, ◌-◌, ◌*◌, ◌/◌, ◌%◌, ◌^◌, ◌≤◌, ◌<◌, ◌≡◌, refl, sym, ◌∙◌, ap, arith,
}
use ccore.Base.Words.{size_mod, bit_or_halves}
use ccore.Table.{smear, next_power_of_2}

or_half : (a b : ℕ) → bit_or a b / 2 ≡ bit_or (a / 2) (b / 2)
or_half a b = omega (arith, bit_or_halves a b)

or_low : (a b : ℕ) → bit_or a b % 2 ≡ max (a % 2) (b % 2)
or_low a b = omega (arith, bit_or_halves a b)

-- `f` ORs each bit with higher ones, and looks at the bits below `m`, a power of two, from each.
record IsSmear (f : ℕ → ℕ) (m : ℕ) : Type 0 where
  half : (v : ℕ) → f v / 2 ≡ f (v / 2)
  low : (v : ℕ) → f v % 2 ≡ min (v % m) 1

-- One round `v |= v >> s` doubles how far up it looks.
abbrev round : (ℕ → ℕ) → ℕ → ℕ → ℕ
round f m v = bit_or (f v) (f v / m)

module _ (f : ℕ → ℕ) where
  jump_square :
      (d : ℕ) → ((v : ℕ) → f v / d ≡ f (v / d)) → (v : ℕ) → f v / (d * d) ≡ f (v / (d * d))
  jump_square d jump v =
      sym (div-div-eq-div-mul (f v) d d)
      ∙ ap (λ x. x / d) (jump v)
      ∙ jump (v / d)
      ∙ ap f (div-div-eq-div-mul v d d)

  round-IsSmear :
      (m : ℕ)
      → IsSmear f m
      → ((v : ℕ) → f v / m ≡ f (v / m))
      → ((x : ℕ) → max (min (x % m) 1) (min (x / m % m) 1) ≡ min (x % (m * m)) 1)
      → IsSmear (round f m) (m * m)
  round-IsSmear m is jump digits = record {
    half = λ v.
        or_half (f v) (f v / m)
        ∙ ap₂ bit_or (is.half v) (
            div-div-eq-div-mul (f v) m 2
            ∙ ap (λ d. f v / d) (mul_comm m 2)
            ∙ sym (div-div-eq-div-mul (f v) 2 m)
            ∙ ap (λ x. x / m) (is.half v));
    low = λ v.
        or_low (f v) (f v / m)
        ∙ ap₂ max (is.low v) (ap (λ x. x % 2) (jump v) ∙ is.low (v / m))
        ∙ digits v;
  }

identity-IsSmear : IsSmear (λ v. v) 2
identity-IsSmear = record { half = λ v. refl; low = λ v. omega arith }

abbrev smear₁ : ℕ → ℕ
smear₁ = round (λ v. v) 2

abbrev smear₂ : ℕ → ℕ
smear₂ = round smear₁ 4

abbrev smear₃ : ℕ → ℕ
smear₃ = round smear₂ 16

abbrev smear₄ : ℕ → ℕ
smear₄ = round smear₃ 256

smear₁-IsSmear : IsSmear smear₁ 4
smear₁-IsSmear = round-IsSmear (λ v. v) 2 identity-IsSmear (λ v. refl) (λ x. omega arith)

smear₂-IsSmear : IsSmear smear₂ 16
smear₂-IsSmear =
    round-IsSmear smear₁ 4 smear₁-IsSmear (jump_square smear₁ 2 smear₁-IsSmear.half)
      (λ x. omega arith)

smear₃-IsSmear : IsSmear smear₃ 256
smear₃-IsSmear =
    let is = smear₂-IsSmear in
    round-IsSmear smear₂ 16 is (jump_square smear₂ 4 (jump_square smear₂ 2 is.half))
      (λ x. omega arith)

smear₄-IsSmear : IsSmear smear₄ (2 ^ 16)
smear₄-IsSmear =
    let is = smear₃-IsSmear in
    round-IsSmear smear₃ 256 is
      (jump_square smear₃ 16 (jump_square smear₃ 4 (jump_square smear₃ 2 is.half)))
      (λ x. omega arith)

smear-IsSmear : IsSmear smear (2 ^ 32)
unfolding smear
smear-IsSmear =
    let is = smear₄-IsSmear in
    round-IsSmear smear₄ 0x10000 is
      (jump_square smear₄ 256
        (jump_square smear₄ 16 (jump_square smear₄ 4 (jump_square smear₄ 2 is.half))))
      (λ x. omega arith)

-- The smear of a 32-bit number is all ones up to its highest bit.
smear_ones :
    (n v : ℕ)
    → v ≤ n
    → v < 2 ^ 32
    → (k : ℕ) × (smear v + 1 ≡ 2 ^ k) × (v < 2 ^ k) × (2 ^ k ≤ max 1 (2 * v))
smear_ones n zero h small = (0, omega (arith, smear_zero), omega arith, omega arith)
  where
    smear_zero : smear 0 ≡ 0
    smear_zero = unfold smear in refl
smear_ones zero (suc v) h small = absurd (omega arith)
smear_ones (suc n) (suc v) h small =
    let (k, ones, above, below) = smear_ones n (suc v / 2) (omega arith) (omega arith) in
    let facts = smear-IsSmear in
    (
      suc k,
      omega (arith, facts.half (suc v), facts.low (suc v), pow-suc 2 k),
      omega (arith, pow-suc 2 k),
      omega (arith, pow-suc 2 k),
    )

from_ones :
    (v k : ℕ)
    → 1 ≤ v
    → v ≤ 2 ^ 32
    → smear (v - 1) + 1 ≡ 2 ^ k
    → v - 1 < 2 ^ k
    → 2 ^ k ≤ max 1 (2 * (v - 1))
    → (next_power_of_2 v ≡ 2 ^ k) × (v ≤ 2 ^ k) × (2 ^ k < 2 * v)
unfolding next_power_of_2
from_ones v k lo hi ones above below =
    let pre : (v + size_mod - 1) % size_mod ≡ v - 1 = omega arith in
    (ap (λ x. (smear x + 1) % size_mod) pre ∙ omega arith, omega arith, omega arith)

-- For a count from 1 to `2^32`, `next_power_of_2` is the least power of two that is no smaller.
pub next_power_of_2_lem :
    (v : ℕ)
    → 1 ≤ v
    → v ≤ 2 ^ 32
    → (k : ℕ) × (next_power_of_2 v ≡ 2 ^ k) × (v ≤ 2 ^ k) × (2 ^ k < 2 * v)
next_power_of_2_lem v lo hi =
    let (k, ones, above, below) = smear_ones (v - 1) (v - 1) (omega arith) (omega arith) in
    let (is, le, least) = from_ones v k lo hi ones above below in (k, is, le, least)
