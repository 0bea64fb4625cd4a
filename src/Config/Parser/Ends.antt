-- ===== src/Config/Parser/Ends.antt =====
-- How the parsers of values in src/cfg.c end.
use ccore.Base.{
  ℕ, ◌≤◌, ◌≡◌, refl, ◌⊎◌, inl, inr, ◌&&◌, ◌||◌, none, List, [], ◌∷◌, ◌==◌, leb, arith, Bool-cases,
  Option-cases, not,
}
use ccore.Base.CString.{CString, is_digit}
use ccore.Base.Floats.{Floats}
use ccore.Base.Outcome.{Outcome, fault, ◌>>=◌, Returns}
use ccore.Config.Reader.{plain, skip_spaces, trim}
use ccore.Config.Values.{
  byte, skip_sign, skip_digits, skip_fraction, split_at, strip, true_text, false_text, number_value,
  parse_number, parse_string, parse_bool, parse_value, begins_number,
}
use ccore.Config.Parser.Within.{
  Within, Within-skip, Within-refl, Within-trans, skip_spaces-Within, skip_digits-Within,
  skip_sign-Within, skip_fraction-Within, split_at-Within, strip-Within,
}

module _ {D S : Type 0} (fl : Floats D S) where
  -- Bytes of the file, in their order, are the text of a number that is out of the range of `int`;
  -- or the file has a byte that is negative as a `char`.
  abbrev pub IsUnfit : List ℕ → Type 0
  IsUnfit file =
      ((text : CString) × Within text file × (fl.to_int (fl.atof text) ≡ none))
      ⊎ ((c : ℕ) × Within (c ∷ []) file × (128 ≤ c))

  -- The run ends normally in a value that satisfies `P`, or the file is unfit and the run faults.
  abbrev pub Ends : {A : Type 0} → List ℕ → Outcome A → (A → Type 0) → Type 0
  Ends file r P = Returns r P ⊎ (IsUnfit file × (r ≡ fault))

  pub Ends-bind :
      {A B : Type 0} (file : List ℕ) (r : Outcome A) (f : A → Outcome B) (P : A → Type 0)
      (Q : B → Type 0)
      → Ends file r P
      → ((a : A) → P a → Ends file (f a) Q)
      → Ends file (r >>= f) Q
  Ends-bind file r f P Q (inl (a, run, p)) next = rw run (next a p)
  Ends-bind file r f P Q (inr (unfit, run)) next = inr (unfit, rw run)

  pub Ends-Within :
      {A : Type 0} (xs ys : List ℕ) (r : Outcome A) (P : A → Type 0)
      → Within xs ys
      → Ends xs r P
      → Ends ys r P
  Ends-Within xs ys r P w (inl done) = inl done
  Ends-Within xs ys r P w (inr (inl (text, within, out), run)) =
      inr (inl (text, Within-trans text xs ys within w, out), run)
  Ends-Within xs ys r P w (inr (inr (c, within, large), run)) =
      inr (inr (c, Within-trans (c ∷ []) xs ys within w, large), run)

  plain-Ends : (s file : List ℕ) → Within s file → Ends file (plain s) (λ t. Within t file)
  unfolding plain
  plain-Ends [] file w = inl ([], refl, w)
  plain-Ends (c ∷ s) file w = elim (Bool-cases (leb 128 c)) [
    | inl large ↦
        let first : Within (c ∷ []) (c ∷ s) = inl (refl, tt) in
        rw large (inr (inr (c, Within-trans (c ∷ []) (c ∷ s) file first w, ground arith), refl))
    | inr fine ↦ rw fine (inl (c ∷ s, refl, w))
  ]

  pub trim-Ends : (s file : List ℕ) → Within s file → Ends file (trim s) (λ t. Within t file)
  unfolding trim
  trim-Ends s file w =
      plain-Ends (skip_spaces s) file (Within-trans (skip_spaces s) s file (skip_spaces-Within s) w)

  number_value-Ends : (text : CString) → Ends text (number_value fl text) (λ v. Unit {0})
  unfolding number_value
  number_value-Ends text = elim (Option-cases (fl.to_int (fl.atof text))) [
    | inl out ↦ inr (inl (text, Within-refl text, out), rw (out, number_value))
    | inr (i, fits) ↦ rw (fits, number_value) (inl (_, refl, tt))
  ]

  parse_number-Ends : (text : CString) → Ends text (parse_number fl text) (λ p. Within p.rest text)
  unfolding parse_number
  parse_number-Ends text =
      Ends-bind text (plain (skip_sign text)) _ (λ t. Within t text) _
        (plain-Ends (skip_sign text) text (skip_sign-Within text))
        (λ src w. elim (Bool-cases (not (is_digit (byte src)) && not (byte src == b'.'))) [
          | inl missing ↦ rw missing (inl (_, refl, w))
          | inr present ↦ rw present (
              Ends-bind text (plain (skip_digits src)) _ (λ t. Within t text) _
                (plain-Ends (skip_digits src) text
                  (Within-trans (skip_digits src) src text (skip_digits-Within src) w))
                (λ point v.
                  Ends-bind text (plain (skip_fraction point)) _ (λ t. Within t text) _
                    (plain-Ends (skip_fraction point) text (
                      Within-trans (skip_fraction point) point text (skip_fraction-Within point) v))
                    (λ rest u.
                      Ends-bind text (number_value fl text) _ (λ n. Unit {0}) _
                        (number_value-Ends text) (λ n done. inl (_, refl, u)))))
        ])

  parse_string-Ends :
      (c : ℕ) (text : CString) (delim : ℕ)
      → Ends (c ∷ text) (parse_string fl (c ∷ text) delim) (λ p. Within p.rest (c ∷ text))
  unfolding parse_string
  parse_string-Ends c text delim = elim (Option-cases (split_at delim text)) [
    | inl open_ended ↦ rw (open_ended, parse_string) (inl (_, refl, tt))
    | inr ((s, rest), closed) ↦
        rw (closed, parse_string)
          (inl (_, refl, Within-skip rest c text (split_at-Within delim text s rest closed)))
  ]

  parse_bool-Within : (s : CString) → Within (parse_bool fl s).rest s
  unfolding parse_bool
  parse_bool-Within s = elim (Option-cases (strip true_text s)) [
    | inr (rest, yes_text) ↦ rw (yes_text, parse_bool) (strip-Within true_text s rest yes_text)
    | inl other ↦ elim (Option-cases (strip false_text s)) [
      | inr (rest, no_text) ↦
          rw (other, no_text, parse_bool) (strip-Within false_text s rest no_text)
      | inl neither ↦ rw (other, neither, parse_bool) (Within-refl s)
    ]
  ]

  pub parse_value-Ends :
      (text : CString) → Ends text (parse_value fl text) (λ p. Within p.rest text)
  unfolding parse_value
  parse_value-Ends [] = inl (_, refl, tt)
  parse_value-Ends (c ∷ text) = elim (Bool-cases (begins_number c)) [
    | inl number ↦ rw number (parse_number-Ends (c ∷ text))
    | inr other ↦ elim (Bool-cases ((c == b't') || (c == b'f'))) [
      | inl flag ↦
          rw (other, flag) (inl (parse_bool fl (c ∷ text), refl, parse_bool-Within (c ∷ text)))
      | inr no_flag ↦ elim (Bool-cases ((c == 39) || (c == 34))) [
        | inl quote ↦ rw (other, no_flag, quote) (parse_string-Ends c text c)
        | inr none_of ↦ rw (other, no_flag, none_of) (inl (_, refl, Within-refl (c ∷ text)))
      ]
    ]
  ]
