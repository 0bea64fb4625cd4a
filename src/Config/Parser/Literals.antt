-- ===== src/Config/Parser/Literals.antt =====
-- src/cfg.c: settings as they are written in a file, and what the parser reads of one.
use ccore.Base.{
  ℕ, ◌≡◌, refl, Bool, true, false, not, Option, none, some, List, [], ◌∷◌, ◌++◌, ◌==◌,
  if◌then◌else◌, arith,
}
use ccore.Base.CString.{CString, is_digit, is_space, str_eq}
use ccore.Base.Floats.{Floats}
use ccore.Base.Outcome.{ok}
use ccore.Config.Entries.{Value, cfg_str, cfg_num, cfg_bool}
use ccore.Config.Reader.{line_is_comment, plain, skip_spaces, trim}
use ccore.Config.Reader.Text.{text_of, rest_of, is_last}
use ccore.Config.Values.{
  skip_sign, skip_digits, split_at, number_value, parse_number, str_value, parse_string, bool_value,
  parse_bool, begins_number, parse_value,
}
use ccore.Config.Parser.{as_string}

abbrev pub All : (ℕ → Type 0) → List ℕ → Type 0
All P [] = Unit {0}
All P (c ∷ cs) = P c × All P cs

pub All-append : (P : ℕ → Type 0) (xs ys : List ℕ) → All P xs → All P ys → All P (xs ++ ys)
All-append P [] ys p q = q
All-append P (x ∷ xs) ys p q = (p.0, All-append P xs ys p.1 q)

-- No NUL and no end of line.
abbrev pub Visible : ℕ → Type 0
Visible c = ((c == 0) ≡ false) × ((c == b'\n') ≡ false) × ((c == b'\r') ≡ false)

pub read-Visible :
    (xs more : List ℕ)
    → All Visible xs
    → (text_of (xs ++ b'\n' ∷ more) ≡ xs)
      × (rest_of (xs ++ b'\n' ∷ more) ≡ more)
      × (is_last (xs ++ b'\n' ∷ more) ≡ false)
unfolding text_of rest_of is_last
read-Visible [] more v = (refl, refl, refl)
read-Visible (x ∷ xs) more v = ground (arith, read-Visible xs more)

pub as_string-Visible : (xs : List ℕ) → All Visible xs → as_string xs ≡ xs
unfolding as_string
as_string-Visible [] v = refl
as_string-Visible (x ∷ xs) v = ground (arith, as_string-Visible xs)

pub split_at-append :
    (delim : ℕ) (xs ys : List ℕ)
    → All (λ c. (c == delim) ≡ false) xs
    → split_at delim (xs ++ delim ∷ ys) ≡ some (xs, ys)
unfolding split_at
split_at-append delim [] ys v = ground arith
split_at-append delim (x ∷ xs) ys v = ground (arith, split_at-append delim xs ys)

plain-digit : (d : ℕ) (ds : CString) → is_digit d ≡ true → plain (d ∷ ds) ≡ ok (d ∷ ds)
unfolding plain is_digit
plain-digit d ds h = ground arith

skip_digits-All : (ds : List ℕ) → All (λ c. is_digit c ≡ true) ds → skip_digits ds ≡ []
unfolding skip_digits
skip_digits-All [] v = refl
skip_digits-All (d ∷ ds) v = ground (arith, skip_digits-All ds)

-- A literal as it is written: a text in double quotes, `true` or `false`, or decimal digits, which
-- stand for the `int` that is given with them.
pub data Literal : Type 0 where
  quoted : List ℕ → Literal
  flag : Bool → Literal
  digits : ℕ → List ℕ → ℕ → Literal

abbrev pub print : Literal → List ℕ
print (quoted s) = 34 ∷ (s ++ 34 ∷ [])
print (flag true) = b't' ∷ b'r' ∷ b'u' ∷ b'e' ∷ []
print (flag false) = b'f' ∷ b'a' ∷ b'l' ∷ b's' ∷ b'e' ∷ []
print (digits d ds i) = d ∷ ds

-- A key has no colon, and does not begin as white space or a comment does.
abbrev pub IsKey : List ℕ → Type 0
IsKey [] = ⊥
IsKey (c ∷ cs) =
    (is_space c ≡ false)
    × ((c == b'#') ≡ false)
    × ((c == b'/') ≡ false)
    × All Visible (c ∷ cs)
    × All (λ d. (d == b':') ≡ false) (c ∷ cs)

pub plain_key : (key : List ℕ) → IsKey key → All (λ d. (d == b':') ≡ false) key
plain_key [] k = absurd k
plain_key (c ∷ cs) k = k.4

module _ {D S : Type 0} (fl : Floats D S) where
  abbrev pub IsLiteral : Literal → Type 0
  IsLiteral (quoted s) = All Visible s × All (λ c. (c == 34) ≡ false) s
  IsLiteral (flag b) = Unit {0}
  IsLiteral (digits d ds i) =
      All (λ c. is_digit c ≡ true) (d ∷ ds) × (fl.to_int (fl.atof (d ∷ ds)) ≡ some i)

  -- What the entry of a key holds for a literal: the kind, the text, the number as `double` and as
  -- `int`, and the truth of it.
  abbrev pub value_of : Literal → Value D
  value_of (quoted s) = record { kind = cfg_str; str = some s; f64 = fl.zero; i64 = 0; b = true }
  value_of (flag true) = record { kind = cfg_bool; str = none; f64 = fl.one; i64 = 1; b = true }
  value_of (flag false) = record { kind = cfg_bool; str = none; f64 = fl.zero; i64 = 0; b = false }
  value_of (digits d ds i) = record {
    kind = cfg_num;
    str = none;
    f64 = fl.atof (d ∷ ds);
    i64 = i;
    b = not (i == 0);
  }

  skip_sign-digit : (d : ℕ) (ds : List ℕ) → is_digit d ≡ true → skip_sign (d ∷ ds) ≡ d ∷ ds
  unfolding skip_sign is_digit
  skip_sign-digit d ds h = ground arith

  number_value-digits :
      (d : ℕ) (ds : List ℕ) (i : ℕ)
      → IsLiteral (digits d ds i)
      → number_value fl (d ∷ ds) ≡ ok (value_of (digits d ds i))
  unfolding number_value
  number_value-digits d ds i is = rw (is.1, number_value)

  parse_number-digits :
      (d : ℕ) (ds : List ℕ) (i : ℕ)
      → IsLiteral (digits d ds i)
      → parse_number fl (d ∷ ds)
        ≡ ok (record { success = true; rest = []; value = some (value_of (digits d ds i)) })
  unfolding parse_number
  parse_number-digits d ds i is = rw (
    skip_sign-digit d ds is.0.0,
    plain-digit d ds is.0.0,
    is.0.0,
    skip_digits-All ds is.0.1,
    number_value-digits d ds i is,
  )

  pub parse_value-print :
      (l : Literal)
      → IsLiteral l
      → parse_value fl (print l)
        ≡ ok (record { success = true; rest = []; value = some (value_of l) })
  unfolding parse_value parse_string parse_bool str_value bool_value
  parse_value-print (quoted s) is = rw (split_at-append 34 s [] is.1, parse_string)
  parse_value-print (flag true) is = refl
  parse_value-print (flag false) is = refl
  parse_value-print (digits d ds i) is =
      let starts : begins_number d ≡ true = unfold begins_number in rw is.0.0 in
      rw starts (parse_number-digits d ds i is)

  All-digits : (ds : List ℕ) → All (λ c. is_digit c ≡ true) ds → All Visible ds
  unfolding is_digit
  All-digits [] v = tt
  All-digits (d ∷ ds) v = (ground arith, All-digits ds v.1)

  Visible-print : (l : Literal) → IsLiteral l → All Visible (print l)
  Visible-print (quoted s) is = (ground arith, All-append Visible s (34 ∷ []) is.0 (ground arith))
  Visible-print (flag true) is = ground arith
  Visible-print (flag false) is = ground arith
  Visible-print (digits d ds i) is = All-digits (d ∷ ds) is.0

  abbrev pub line_of : List ℕ → Literal → List ℕ
  line_of key l = key ++ b':' ∷ (b' ' ∷ print l)

  abbrev pub print_file : List (List ℕ × Literal) → List ℕ
  print_file [] = []
  print_file ((key, l) ∷ rest) = line_of key l ++ b'\n' ∷ print_file rest

  abbrev pub AreSettings : List (List ℕ × Literal) → Type 0
  AreSettings [] = Unit {0}
  AreSettings ((key, l) ∷ rest) = IsKey key × IsLiteral l × AreSettings rest

  -- The last value given to a key, or the one before.
  abbrev pub settled :
      Option (Option (Value D)) → CString → List (List ℕ × Literal) → Option (Option (Value D))
  settled old j [] = old
  settled old j ((key, l) ∷ rest) =
      settled (if str_eq j key then some (some (value_of l)) else old) j rest

  pub trim_space : (l : Literal) → IsLiteral l → trim (b' ' ∷ print l) ≡ ok (print l)
  unfolding trim skip_spaces plain is_digit
  trim_space (quoted s) is = refl
  trim_space (flag true) is = refl
  trim_space (flag false) is = refl
  trim_space (digits d ds i) is = ground arith

  pub Visible-line_of :
      (key : List ℕ) (l : Literal) → IsKey key → IsLiteral l → All Visible (line_of key l)
  Visible-line_of [] l k is = absurd k
  Visible-line_of (c ∷ cs) l k is =
      All-append Visible (c ∷ cs) (b':' ∷ (b' ' ∷ print l)) k.3
        (ground arith, (ground arith, Visible-print l is))

  pub skip_spaces-line_of :
      (key : List ℕ) (l : Literal) (more : List ℕ)
      → IsKey key
      → skip_spaces (line_of key l ++ more) ≡ line_of key l ++ more
  unfolding skip_spaces
  skip_spaces-line_of [] l more k = absurd k
  skip_spaces-line_of (c ∷ cs) l more k = rw k.0

  pub comment-line_of :
      (key : List ℕ) (l : Literal) → IsKey key → line_is_comment (line_of key l) ≡ false
  unfolding line_is_comment
  comment-line_of [] l k = absurd k
  comment-line_of (c ∷ []) l k = ground arith
  comment-line_of (c ∷ d ∷ cs) l k = ground arith
