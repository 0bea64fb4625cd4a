-- ===== src/Config/Entries.antt =====
-- The array of entries: search, growth, insertion, the getters and `cc_cfg_delete`. The count of
-- a configuration is the length of its list of entries.
pub mod Lookup
pub mod Search
use ccore.Base.{
  ℕ, zero, suc, ◌+◌, ◌*◌, ◌%◌, Bool, true, false, Option, none, some, List, [], ◌∷◌, ◌++◌, ◌==◌,
  ltb, if◌then◌else◌, not, length, set, take,
}
use ccore.Base.CString.{CString, str_eq}
use ccore.Base.Floats.{Floats}
use ccore.Base.Outcome.{Outcome, ok, fault, ◌>>=◌}
use ccore.Base.Words.{size_mod}

pub data Kind : Type 0 where
  cfg_nil cfg_str cfg_num cfg_bool : Kind

-- The fields of an entry behind its key. `str` is `none` for `NULL`; `i64` is an `int`.
pub record Value (D : Type 0) : Type 0 where
  pub kind : Kind
  pub str : Option CString
  pub f64 : D
  pub i64 : ℕ
  pub b : Bool

-- `cc_realloc` does not initialise the fields of a new entry: until a value is parsed there are
-- none, and to read one is a fault.
pub record Entry (D : Type 0) : Type 0 where
  pub key : CString
  pub value : Option (Value D)

pub record Cfg (D : Type 0) : Type 0 where
  pub capacity : ℕ
  pub entries : List (Entry D)

abbrev pub default_capacity : ℕ
default_capacity = 32

-- `vsnprintf(key, sizeof(key), fmt, args)` into 256 bytes keeps 255 of the formatted text.
unfoldable pub key_buffer : CString → CString
key_buffer text = take 255 text

-- The blocks that `cc_cfg_delete` frees, in order: strings, keys, the array and the structure.
pub data Block : Type 0 where
  str_block : Option CString → Block
  key_block : CString → Block
  array_block : Block
  cfg_block : Block

module _ {D : Type 0} where
  -- The first entry under a key, and its index.
  unfoldable pub find_from : CString → ℕ → List (Entry D) → Option (ℕ × Entry D)
  find_from key i [] = none
  find_from key i (e ∷ es) = if str_eq key e.key then some (i, e) else find_from key (suc i) es

  unfoldable pub find_entry : Cfg D → CString → Option (Entry D)
  unfolding find_from
  find_entry cfg key = elim (find_from key 0 cfg.entries) [ none ↦ none | some (i, e) ↦ some e ]

  unfoldable pub ensure : Cfg D → Cfg D
  ensure cfg = if ltb ((length cfg.entries + 1) % size_mod) cfg.capacity then cfg else record cfg {
    capacity = if cfg.capacity == 0 then default_capacity else cfg.capacity * 2 % size_mod;
  }

  -- `entry = &cfg->entries[cfg->count++]; entry->key = string_duplicate(key);`
  unfoldable pub push_entry : Cfg D → CString → Outcome (Cfg D × ℕ)
  push_entry cfg key =
      if ltb (length cfg.entries) cfg.capacity
      then ok (
        record cfg { entries = cfg.entries ++ record { key = key; value = none } ∷ [] },
        length cfg.entries,
      )
      else fault

  -- The entry is known by its index.
  unfoldable pub find_entry_or_add : Cfg D → CString → Outcome (Cfg D × ℕ)
  unfolding find_from ensure push_entry
  find_entry_or_add cfg key = elim (find_from key 0 cfg.entries) [
    | some (i, e) ↦ ok (cfg, i)
    | none ↦ push_entry (ensure cfg) key
  ]

  -- The writes to the fields of entry `i`, where there are any.
  unfoldable pub store_at : Value D → ℕ → List (Entry D) → List (Entry D)
  store_at v i [] = []
  store_at v zero (e ∷ es) = record e { value = some v } ∷ es
  store_at v (suc i) (e ∷ es) = e ∷ store_at v i es

  unfoldable pub store : Cfg D → ℕ → Option (Value D) → Cfg D
  unfolding store_at
  store cfg i none = cfg
  store cfg i (some v) = record cfg { entries = store_at v i cfg.entries }

  -- The value of the entry under the formatted key; `ok none` where there is no such entry.
  unfoldable pub entry_value : Cfg D → CString → Outcome (Option (Value D))
  unfolding find_entry key_buffer
  entry_value cfg text = elim (find_entry cfg (key_buffer text)) [
    | none ↦ ok none
    | some e ↦ elim e.value [ none ↦ fault | some v ↦ ok (some v) ]
  ]

  unfoldable pub key_exists : Cfg D → CString → Bool
  unfolding find_entry key_buffer
  key_exists cfg text = elim (find_entry cfg (key_buffer text)) [ none ↦ false | some e ↦ true ]

  -- Each getter returns whether it succeeds, and what is then in `*out`.
  module _ {S : Type 0} (fl : Floats D S) where
    unfoldable pub bool_of : Value D → Bool → Bool × Bool
    bool_of v out = elim v.kind [
      | cfg_nil ↦ (true, false)
      | cfg_num ↦ (true, fl.is_nonzero v.f64)
      | cfg_bool ↦ (true, v.b)
      | cfg_str ↦ (false, out)
    ]

    unfoldable pub get_bool : Cfg D → Bool → CString → Outcome (Bool × Bool)
    unfolding entry_value bool_of
    get_bool cfg out text = do
      found ← entry_value cfg text
      ok (elim found [ none ↦ (false, out) | some v ↦ bool_of v out ])

    unfoldable pub float_of : Value D → S → Bool × S
    float_of v out = elim v.kind [ cfg_num ↦ (true, fl.to_float v.f64) | _ ↦ (false, out) ]

    unfoldable pub get_float : Cfg D → S → CString → Outcome (Bool × S)
    unfolding entry_value float_of
    get_float cfg out text = do
      found ← entry_value cfg text
      ok (elim found [ none ↦ (false, out) | some v ↦ float_of v out ])

  unfoldable pub int_of : Value D → ℕ → Bool × ℕ
  int_of v out = elim v.kind [ cfg_num ↦ (true, v.i64) | _ ↦ (false, out) ]

  unfoldable pub get_int : Cfg D → ℕ → CString → Outcome (Bool × ℕ)
  unfolding entry_value int_of
  get_int cfg out text = do
    found ← entry_value cfg text
    ok (elim found [ none ↦ (false, out) | some v ↦ int_of v out ])

  unfoldable pub double_of : Value D → D → Bool × D
  double_of v out = elim v.kind [ cfg_num ↦ (true, v.f64) | _ ↦ (false, out) ]

  unfoldable pub get_double : Cfg D → D → CString → Outcome (Bool × D)
  unfolding entry_value double_of
  get_double cfg out text = do
    found ← entry_value cfg text
    ok (elim found [ none ↦ (false, out) | some v ↦ double_of v out ])

  unfoldable pub str_of : Value D → Option CString → Bool × Option CString
  str_of v out = elim v.kind [ cfg_str ↦ (true, v.str) | _ ↦ (false, out) ]

  unfoldable pub get_str : Cfg D → Option CString → CString → Outcome (Bool × Option CString)
  unfolding entry_value str_of
  get_str cfg out text = do
    found ← entry_value cfg text
    ok (elim found [ none ↦ (false, out) | some v ↦ str_of v out ])

  unfoldable pub free_entry : Entry D → Outcome (List Block)
  free_entry e = elim e.value [
    | none ↦ fault
    | some v ↦ ok (elim v.kind [
      | cfg_str ↦ str_block v.str ∷ key_block e.key ∷ []
      | _ ↦ key_block e.key ∷ []
    ])
  ]

  unfoldable pub free_entries : List (Entry D) → Outcome (List Block)
  unfolding free_entry
  free_entries [] = ok []
  free_entries (e ∷ es) = do here ← free_entry e; rest ← free_entries es; ok (here ++ rest)

  unfoldable pub delete : Cfg D → Outcome (List Block)
  unfolding free_entries
  delete cfg = do freed ← free_entries cfg.entries; ok (freed ++ array_block ∷ cfg_block ∷ [])
