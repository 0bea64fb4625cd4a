-- ===== src/Config/Values.antt =====
-- Values: numbers, strings in quotes and the two Booleans. Each parser returns whether it
-- succeeds, what is left of the text, and the fields that it writes to the entry, if any.
use ccore.Base.{
  ℕ, Bool, true, false, ◌&&◌, ◌||◌, not, Option, none, some, [], ◌∷◌, ◌==◌, if◌then◌else◌,
}
use ccore.Base.CString.{CString, is_digit}
use ccore.Base.Floats.{Floats}
use ccore.Base.Outcome.{Outcome, ok, fault, ◌>>=◌}
use ccore.Config.Entries.{cfg_str, cfg_num, cfg_bool, Value}
use ccore.Config.Reader.{plain}

pub record Parsed (D : Type 0) : Type 0 where
  pub success : Bool
  pub rest : CString
  pub value : Option (Value D)

-- `*src`, which is the NUL at the end of a string
unfoldable pub byte : CString → ℕ
byte [] = 0
byte (c ∷ s) = c

-- `if(*src == '-' || *src == '+') src += 1;`
unfoldable pub skip_sign : CString → CString
skip_sign [] = []
skip_sign (c ∷ s) = if (c == b'-') || (c == b'+') then s else c ∷ s

unfoldable pub skip_digits : CString → CString
unfolding is_digit
skip_digits [] = []
skip_digits (c ∷ s) = let rest = skip_digits s in if is_digit c then rest else c ∷ s

unfoldable pub skip_fraction : CString → CString
unfolding skip_digits
skip_fraction [] = []
skip_fraction (c ∷ s) = if c == b'.' then skip_digits s else c ∷ s

-- The text before the first byte that is `delim`, and the text behind it.
unfoldable pub split_at : ℕ → CString → Option (CString × CString)
split_at delim [] = none
split_at delim (c ∷ s) =
    let later : Option (CString × CString) = elim (split_at delim s) [
      | none ↦ none
      | some (a, b) ↦ some (c ∷ a, b)
    ] in
    if c == delim then some ([], s) else later

-- The text behind a prefix: `!strncmp(src, "true", 4)` and `src + 4`
unfoldable pub strip : CString → CString → Option CString
strip [] s = some s
strip (c ∷ prefix) [] = none
strip (c ∷ prefix) (d ∷ s) = if c == d then strip prefix s else none

abbrev pub true_text : CString
true_text = b't' ∷ b'r' ∷ b'u' ∷ b'e' ∷ []

abbrev pub false_text : CString
false_text = b'f' ∷ b'a' ∷ b'l' ∷ b's' ∷ b'e' ∷ []

-- The `case` labels of the `switch` on the first byte
unfoldable pub begins_number : ℕ → Bool
unfolding is_digit
begins_number c = is_digit c || (c == b'.') || (c == b'+') || (c == b'-')

module _ {D S : Type 0} (fl : Floats D S) where
  unfoldable pub number_value : CString → Outcome (Value D)
  number_value text =
      let f64 = fl.atof text in
      elim (fl.to_int f64) [
        | none ↦ fault
        | some i ↦ ok (record { kind = cfg_num; str = none; f64 = f64; i64 = i; b = not (i == 0) })
      ]

  unfoldable pub parse_number : CString → Outcome (Parsed D)
  unfolding byte skip_sign skip_digits skip_fraction number_value is_digit plain
  parse_number text = do
    src ← plain (skip_sign text)
    if not (is_digit (byte src)) && not (byte src == b'.')
        then ok (record { success = false; rest = src; value = none })
        else (do
          point ← plain (skip_digits src)
          rest ← plain (skip_fraction point)
          v ← number_value text
          ok (record { success = true; rest = rest; value = some v }))

  unfoldable pub str_value : CString → Value D
  str_value s = record { kind = cfg_str; str = some s; f64 = fl.zero; i64 = 0; b = true }

  -- `text` begins with the opening quote.
  unfoldable pub parse_string : CString → ℕ → Outcome (Parsed D)
  unfolding split_at str_value
  parse_string [] delim = fault
  parse_string (quote ∷ src) delim = elim (split_at delim src) [
    | none ↦ ok (record { success = false; rest = []; value = none })
    | some (s, rest) ↦ ok (record { success = true; rest = rest; value = some (str_value s) })
  ]

  unfoldable pub bool_value : Bool → Value D
  bool_value b = record {
    kind = cfg_bool;
    str = none;
    f64 = if b then fl.one else fl.zero;
    i64 = if b then 1 else 0;
    b = b;
  }

  unfoldable pub parse_bool : CString → Parsed D
  unfolding strip bool_value
  parse_bool src = elim (strip true_text src) [
    | some rest ↦ record { success = true; rest = rest; value = some (bool_value true) }
    | none ↦ elim (strip false_text src) [
      | some rest ↦ record { success = true; rest = rest; value = some (bool_value false) }
      | none ↦ record { success = false; rest = src; value = none }
    ]
  ]

  unfoldable pub parse_value : CString → Outcome (Parsed D)
  unfolding byte begins_number parse_number parse_bool parse_string
  parse_value text =
      let c = byte text in
      if begins_number c
      then parse_number text
      else if (c == b't') || (c == b'f')
      then ok (parse_bool text)
      else if (c == 39) || (c == 34)
      then parse_string text c
      else ok (record { success = false; rest = text; value = none })
