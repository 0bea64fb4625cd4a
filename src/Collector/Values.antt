-- ===== src/Collector/Values.antt =====
-- include/ccore/value.h: the tagged union. Its 64 bits are a number: an `int64_t` is its pattern and
-- a pointer its address; how a double is stored in 64 bits is given by two functions.
use ccore.Base.{ℕ, ◌≡◌, refl, ap, Bool, true, false, not, ◌==◌, if◌then◌else◌}
use ccore.Base.Outcome.{Build, debug, Outcome, ok, aborted, ◌>>=◌, ◌>>◌, assert}

pub data ValueKind : Type 0 where
  value_nil value_bool value_int value_float value_string value_ref : ValueKind

pub record TaggedValue : Type 0 where
  pub kind : ValueKind
  pub bits : ℕ

-- `==` on the tags
unfoldable pub same_kind : ValueKind → ValueKind → Bool
same_kind value_nil value_nil = true
same_kind value_bool value_bool = true
same_kind value_int value_int = true
same_kind value_float value_float = true
same_kind value_string value_string = true
same_kind value_ref value_ref = true
same_kind k l = false

unfoldable pub val_nil : TaggedValue
val_nil = record { kind = value_nil; bits = 0 }

unfoldable pub val_bool : Bool → TaggedValue
val_bool b = record { kind = value_bool; bits = if b then 1 else 0 }

unfoldable pub val_int : ℕ → TaggedValue
val_int i = record { kind = value_int; bits = i }

unfoldable pub val_string : ℕ → TaggedValue
val_string s = record { kind = value_string; bits = s }

unfoldable pub val_ref : ℕ → TaggedValue
val_ref ref = record { kind = value_ref; bits = ref }

-- `CCASSERT(value.kind == kind)`, and the bits
unfoldable pub read_as : Build → ValueKind → TaggedValue → Outcome ℕ
unfolding same_kind
read_as build kind value = assert build (same_kind value.kind kind) >> ok value.bits

unfoldable pub as_bool : Build → TaggedValue → Outcome Bool
unfolding read_as
as_bool build value = do int_val ← read_as build value_bool value; ok (not (int_val == 0))

unfoldable pub as_int : Build → TaggedValue → Outcome ℕ
unfolding read_as
as_int build value = read_as build value_int value

unfoldable pub as_string : Build → TaggedValue → Outcome ℕ
unfolding read_as
as_string build value = read_as build value_string value

unfoldable pub as_ref : Build → TaggedValue → Outcome ℕ
unfolding read_as
as_ref build value = read_as build value_ref value

module _ {D : Type 0} (to_bits : D → ℕ) (of_bits : ℕ → D) where
  unfoldable pub val_float : D → TaggedValue
  val_float f = record { kind = value_float; bits = to_bits f }

  unfoldable pub as_float : Build → TaggedValue → Outcome D
  unfolding read_as
  as_float build value = do float_val ← read_as build value_float value; ok (of_bits float_val)

  -- What the five accessors do with a value, by what was put into it.
  pub data Content : Type 0 where
    nothing : Content
    a_bool : Bool → Content
    an_int a_string a_ref : ℕ → Content
    a_float : D → Content

  unfoldable pub make : Content → TaggedValue
  unfolding val_nil val_bool val_int val_string val_ref val_float
  make nothing = val_nil
  make (a_bool b) = val_bool b
  make (an_int i) = val_int i
  make (a_string s) = val_string s
  make (a_ref r) = val_ref r
  make (a_float f) = val_float f

  abbrev pub only_bool : Content → Outcome Bool
  only_bool (a_bool b) = ok b
  only_bool c = aborted

  abbrev pub only_int : Content → Outcome ℕ
  only_int (an_int i) = ok i
  only_int c = aborted

  abbrev pub only_float : Content → Outcome D
  only_float (a_float f) = ok f
  only_float c = aborted

  abbrev pub only_string : Content → Outcome ℕ
  only_string (a_string s) = ok s
  only_string c = aborted

  abbrev pub only_ref : Content → Outcome ℕ
  only_ref (a_ref r) = ok r
  only_ref c = aborted

  -- With assertions, where 64 bits hold a double: the accessor for the kind of a value returns what
  -- was put into the value, and the four others abort; on the nil value all of them do.
  accessors-make :
      (c : Content)
      → ((f : D) → of_bits (to_bits f) ≡ f)
      → (as_bool debug (make c) ≡ only_bool c)
        × (as_int debug (make c) ≡ only_int c)
        × (as_float debug (make c) ≡ only_float c)
        × (as_string debug (make c) ≡ only_string c)
        × (as_ref debug (make c) ≡ only_ref c)
  unfolding as_bool as_int as_float as_string as_ref read_as same_kind make val_nil val_bool val_int
      val_string val_ref val_float
  accessors-make nothing held = (refl, refl, refl, refl, refl)
  accessors-make (a_bool true) held = (refl, refl, refl, refl, refl)
  accessors-make (a_bool false) held = (refl, refl, refl, refl, refl)
  accessors-make (an_int i) held = (refl, refl, refl, refl, refl)
  accessors-make (a_string s) held = (refl, refl, refl, refl, refl)
  accessors-make (a_ref r) held = (refl, refl, refl, refl, refl)
  accessors-make (a_float f) held = (refl, refl, ap ok (held f), refl, refl)
