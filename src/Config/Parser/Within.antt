-- ===== src/Config/Parser/Within.antt =====
-- Which bytes of a file the parser of src/cfg.c has in hand: those that it reads are in the file, in
-- their order.
use mathlib.Core.Path.{subst}
use ccore.Base.{
  ℕ, ◌≡◌, refl, ◌∙◌, ap, ◌⊎◌, inl, inr, Option, none, some, List, [], ◌∷◌, ◌==◌, arith, Bool-cases,
  Option-cases,
}
use ccore.Base.CString.{CString, is_digit, is_space}
use ccore.Config.Reader.{skip_spaces}
use ccore.Config.Reader.Text.{text_of, rest_of}
use ccore.Config.Values.{skip_sign, skip_digits, skip_fraction, split_at, strip}
use ccore.Config.Parser.{as_string}

-- `xs` is what is left of `ys` when some of its bytes are crossed out.
abbrev pub Within : List ℕ → List ℕ → Type 0
Within [] ys = Unit {0}
Within (x ∷ xs) [] = ⊥
Within (x ∷ xs) (y ∷ ys) = ((x ≡ y) × Within xs ys) ⊎ Within (x ∷ xs) ys

pub Within-skip : (xs : List ℕ) (y : ℕ) (ys : List ℕ) → Within xs ys → Within xs (y ∷ ys)
Within-skip [] y ys w = tt
Within-skip (x ∷ xs) y ys w = inr w

pub Within-refl : (xs : List ℕ) → Within xs xs
Within-refl [] = tt
Within-refl (x ∷ xs) = inl (refl, Within-refl xs)

pub Within-trans : (xs ys zs : List ℕ) → Within xs ys → Within ys zs → Within xs zs
Within-trans [] ys zs p q = tt
Within-trans (x ∷ xs) [] zs p q = absurd p
Within-trans (x ∷ xs) (y ∷ ys) [] p q = absurd q
Within-trans (x ∷ xs) (y ∷ ys) (z ∷ zs) p (inr q) = inr (Within-trans (x ∷ xs) (y ∷ ys) zs p q)
Within-trans (x ∷ xs) (y ∷ ys) (z ∷ zs) (inl (e, p)) (inl (f, q)) =
    inl (e ∙ f, Within-trans xs ys zs p q)
Within-trans (x ∷ xs) (y ∷ ys) (z ∷ zs) (inr p) (inl (f, q)) = inr (Within-trans (x ∷ xs) ys zs p q)

pub skip_spaces-Within : (s : List ℕ) → Within (skip_spaces s) s
unfolding skip_spaces
skip_spaces-Within [] = tt
skip_spaces-Within (c ∷ s) = elim (Bool-cases (is_space c)) [
  | inl blank ↦ rw blank (Within-skip (skip_spaces s) c s (skip_spaces-Within s))
  | inr other ↦ rw other (Within-refl (c ∷ s))
]

pub skip_digits-Within : (s : CString) → Within (skip_digits s) s
unfolding skip_digits
skip_digits-Within [] = tt
skip_digits-Within (c ∷ s) = elim (Bool-cases (is_digit c)) [
  | inl digit ↦ rw digit (Within-skip (skip_digits s) c s (skip_digits-Within s))
  | inr other ↦ rw other (Within-refl (c ∷ s))
]

pub skip_sign-Within : (s : CString) → Within (skip_sign s) s
unfolding skip_sign
skip_sign-Within [] = tt
skip_sign-Within (c ∷ s) = ground (arith, Within-refl (c ∷ s), Within-skip s c s (Within-refl s))

pub skip_fraction-Within : (s : CString) → Within (skip_fraction s) s
unfolding skip_fraction
skip_fraction-Within [] = tt
skip_fraction-Within (c ∷ s) = elim (Bool-cases (c == b'.')) [
  | inl point ↦ rw point (Within-skip (skip_digits s) c s (skip_digits-Within s))
  | inr other ↦ rw other (Within-refl (c ∷ s))
]

pub as_string-Within : (s : List ℕ) → Within (as_string s) s
unfolding as_string
as_string-Within [] = tt
as_string-Within (c ∷ s) = elim (Bool-cases (c == 0)) [
  | inl end ↦ rw end tt
  | inr other ↦ rw other (inl (refl, as_string-Within s))
]

pub text_of-Within : (s : List ℕ) → Within (text_of s) s
unfolding text_of
text_of-Within [] = tt
text_of-Within (c ∷ s) = elim (Bool-cases (c == b'\n')) [
  | inl newline ↦ rw newline tt
  | inr other ↦ elim (Bool-cases (c == b'\r')) [
    | inl cr ↦ rw (other, cr) (Within-skip (text_of s) c s (text_of-Within s))
    | inr kept ↦ rw (other, kept) (inl (refl, text_of-Within s))
  ]
]

pub rest_of-Within : (s : List ℕ) → Within (rest_of s) s
unfolding rest_of
rest_of-Within [] = tt
rest_of-Within (c ∷ s) = elim (Bool-cases (c == b'\n')) [
  | inl newline ↦ rw newline (Within-skip s c s (Within-refl s))
  | inr other ↦ rw other (Within-skip (rest_of s) c s (rest_of-Within s))
]

abbrev behind : Option (CString × CString) → CString
behind none = []
behind (some (a, b)) = b

-- What is behind the delimiter.
pub split_at-Within : (delim : ℕ) (s a b : CString) → split_at delim s ≡ some (a, b) → Within b s
unfolding split_at
split_at-Within delim [] a b e = cc
split_at-Within delim (c ∷ s) a b e = elim (Bool-cases (c == delim)) [
  | inl here ↦ at_once (rw here at e)
  | inr other ↦ elim (Option-cases (split_at delim s)) [
    | inl none_there ↦ cc (rw (other, none_there, split_at) at e)
    | inr ((a', b'), there) ↦
        later a' b' (split_at-Within delim s a' b' there) (rw (other, there, split_at) at e)
  ]
]
  where
    at_once : ◌≡◌ {A = Option (CString × CString)} (some ([], s)) (some (a, b)) → Within b (c ∷ s)
    at_once e = subst (λ t. Within t (c ∷ s)) (ap behind e) (Within-skip s c s (Within-refl s))

    later :
        (a' b' : CString)
        → Within b' s
        → ◌≡◌ {A = Option (CString × CString)} (some (c ∷ a', b')) (some (a, b))
        → Within b (c ∷ s)
    later a' b' w e = subst (λ t. Within t (c ∷ s)) (ap behind e) (Within-skip b' c s w)

abbrev left : Option CString → CString
left none = []
left (some s) = s

pub strip-Within : (prefix s r : CString) → strip prefix s ≡ some r → Within r s
unfolding strip
strip-Within [] s r e = subst (λ t. Within t s) (ap left e) (Within-refl s)
strip-Within (c ∷ prefix) [] r e = cc
strip-Within (c ∷ prefix) (d ∷ s) r e = elim (Bool-cases (c == d)) [
  | inl same ↦ Within-skip r d s (strip-Within prefix s r (rw same at e))
  | inr other ↦ absurd (cc (rw other at e))
]
