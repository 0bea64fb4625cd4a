-- ===== src/Config/Getters.antt =====
-- What the getters read, and what a value that does not parse does to them and to `cc_cfg_delete`.
use ccore.Base.{
  ℕ, ◌≡◌, refl, ◌∙◌, ap, inl, inr, Bool, true, false, Option, none, some, ◌∷◌, Option-cases,
}
use ccore.Base.CString.{CString}
use ccore.Base.Floats.{Floats}
use ccore.Base.Outcome.{Outcome, ok, fault}
use ccore.Config.Entries.{
  Value, Cfg, find_from, entry_value, key_buffer, get_bool, get_float, get_int, get_double, get_str,
}
use ccore.Config.Entries.Search.{look, find_from-none, find_from-look_in}
use ccore.Config.Parser.Literals.{Literal, quoted, flag, digits, value_of}
use ccore.Config.Values.{str_value, bool_value}

module _ {D : Type 0} where
  -- A read of an entry's fields, by what the configuration holds under the key.
  abbrev pub reading : Option (Option (Value D)) → Outcome (Option (Value D))
  reading none = ok none
  reading (some none) = fault
  reading (some (some v)) = ok (some v)

  value_cases :
      (w : Option (Value D)) → elim w [ none ↦ fault | some v ↦ ok (some v) ] ≡ reading (some w)
  value_cases none = refl
  value_cases (some v) = refl

  entry_value-look :
      (cfg : Cfg D) (text : CString) → entry_value cfg text ≡ reading (look cfg (key_buffer text))
  unfolding entry_value look
  entry_value-look cfg text = elim (Option-cases (find_from (key_buffer text) 0 cfg.entries)) [
    | inl absent ↦ rw (absent, entry_value, find_from-none (key_buffer text) 0 cfg.entries absent)
    | inr ((i, e), present) ↦
        rw (present, entry_value, find_from-look_in (key_buffer text) cfg.entries present)
          (value_cases e.value)
  ]

module _ {D S : Type 0} (fl : Floats D S) (cfg : Cfg D) (text : CString) where
  -- What the five getters return, each with what is then in `*out`, for a text, a Boolean and a
  -- number.
  abbrev pub Answers : Literal → Type 0
  Answers (quoted s) =
      ((o : Option CString) → get_str cfg o text ≡ ok (true, some s))
      × ((o : Bool) → get_bool fl cfg o text ≡ ok (false, o))
      × ((o : ℕ) → get_int cfg o text ≡ ok (false, o))
      × ((o : S) → get_float fl cfg o text ≡ ok (false, o))
      × ((o : D) → get_double cfg o text ≡ ok (false, o))
  Answers (flag b) =
      ((o : Option CString) → get_str cfg o text ≡ ok (false, o))
      × ((o : Bool) → get_bool fl cfg o text ≡ ok (true, b))
      × ((o : ℕ) → get_int cfg o text ≡ ok (false, o))
      × ((o : S) → get_float fl cfg o text ≡ ok (false, o))
      × ((o : D) → get_double cfg o text ≡ ok (false, o))
  Answers (digits d ds i) =
      ((o : Option CString) → get_str cfg o text ≡ ok (false, o))
      × ((o : Bool) → get_bool fl cfg o text ≡ ok (true, fl.is_nonzero (fl.atof (d ∷ ds))))
      × ((o : ℕ) → get_int cfg o text ≡ ok (true, i))
      × ((o : S) → get_float fl cfg o text ≡ ok (true, fl.to_float (fl.atof (d ∷ ds))))
      × ((o : D) → get_double cfg o text ≡ ok (true, fl.atof (d ∷ ds)))

  module _ {w : Option (Option (Value D))} (holds : look cfg (key_buffer text) ≡ w) where
    reads : entry_value cfg text ≡ reading w
    reads = entry_value-look cfg text ∙ ap reading holds

  -- Where the first 255 bytes of the formatted text are a key that holds the value of a literal, the
  -- getters for its kind succeed with the value, and the others fail and leave `*out` alone; a
  -- number is also read as a Boolean, and as a float.
  getters-Answers :
      (l : Literal) → look cfg (key_buffer text) ≡ some (some (value_of fl l)) → Answers l
  unfolding get_str get_bool get_int get_float get_double str_value bool_value
  getters-Answers (quoted s) holds =
      let run = reads holds in (λ o. rw run, λ o. rw run, λ o. rw run, λ o. rw run, λ o. rw run)
  getters-Answers (flag true) holds =
      let run = reads holds in (λ o. rw run, λ o. rw run, λ o. rw run, λ o. rw run, λ o. rw run)
  getters-Answers (flag false) holds =
      let run = reads holds in (λ o. rw run, λ o. rw run, λ o. rw run, λ o. rw run, λ o. rw run)
  getters-Answers (digits d ds i) holds =
      let run = reads holds in (λ o. rw run, λ o. rw run, λ o. rw run, λ o. rw run, λ o. rw run)

  -- Where no value has been written yet, every getter reads fields that are not initialised.
  pub getters_fault :
      look cfg (key_buffer text) ≡ some none
      → ((o : Option CString) → get_str cfg o text ≡ fault)
        × ((o : Bool) → get_bool fl cfg o text ≡ fault)
        × ((o : ℕ) → get_int cfg o text ≡ fault)
        × ((o : S) → get_float fl cfg o text ≡ fault)
        × ((o : D) → get_double cfg o text ≡ fault)
  unfolding get_str get_bool get_int get_float get_double
  getters_fault holds =
      let run = reads holds in (λ o. rw run, λ o. rw run, λ o. rw run, λ o. rw run, λ o. rw run)
