-- ===== src/Config/MissingValue.antt =====
-- A line with a key and no value: `cc_cfg_load` returns the configuration all the same, with an
-- entry whose fields have never been written.
use ccore.Base.{
  ℕ, zero, suc, ◌+◌, ◌^◌, ◌≤◌, ◌<◌, ◌≡◌, refl, ◌∙◌, ap, ◌⊎◌, inl, inr, Bool, false, Option, none,
  some, List, [], ◌∷◌, ◌++◌, length, take, arith, Bool-cases, Option-cases,
}
use ccore.Base.CString.{CString, str_eq, str_eq_refl}
use ccore.Base.Floats.{Floats}
use ccore.Base.Outcome.{Outcome, ok, fault, Returns}
use ccore.Config.Entries.{
  Block, Entry, Cfg, key_buffer, free_entry, free_entries, delete, store, get_str, get_bool,
  get_int, get_float, get_double,
}
use ccore.Config.Entries.Lookup.{find_entry_or_add-IsOpened}
use ccore.Config.Entries.Search.{look, look_in, IsCfg}
use ccore.Config.Getters.{getters_fault}
use ccore.Config.Parser.{parse_entry, parse_line, parse_turn, parse_loop, feof, parse, empty, load}
use ccore.Config.Parser.RoundTrip.{parse_loop-step}
use ccore.Config.Parser.Literals.{
  All, Visible, All-append, IsKey, read-Visible, plain_key, as_string-Visible, split_at-append,
}
use ccore.Config.Reader.{skip_spaces, line_is_comment}
use ccore.Config.Reader.Text.{read_line-text, text_of}
use ccore.Config.Values.{split_at, parse_value}

module _ {D : Type 0} where
  free_entry-fault : (e : Entry D) → e.value ≡ none → free_entry e ≡ fault
  unfolding free_entry
  free_entry-fault e h = rw (h, free_entry)

  free_entry-cases :
      (e : Entry D) → (free_entry e ≡ fault) ⊎ ((bs : List Block) × (free_entry e ≡ ok bs))
  unfolding free_entry
  free_entry-cases e = elim (Option-cases e.value) [
    | inl unset ↦ inl (rw (unset, free_entry))
    | inr (v, holds) ↦ rw (holds, free_entry) (inr (_, refl))
  ]

  free_entries-fault :
      (key : CString) (es : List (Entry D)) → look_in key es ≡ some none → free_entries es ≡ fault
  unfolding free_entries look_in
  free_entries-fault key [] h = cc
  free_entries-fault key (e ∷ es) h = elim (Bool-cases (str_eq key e.key)) [
    | inl hit ↦ rw (free_entry-fault e (ground arith))
    | inr miss ↦
        let rest = free_entries-fault key es (ground arith) in
        elim (free_entry-cases e) [ inl bad ↦ rw bad | inr (bs, freed) ↦ rw (freed, rest) ]
  ]

  delete-fault : (cfg : Cfg D) (key : CString) → look cfg key ≡ some none → delete cfg ≡ fault
  unfolding delete look
  delete-fault cfg key h = rw (free_entries-fault key cfg.entries h)

take_short : {A : Type 0} (n : ℕ) (xs : List A) → length xs ≤ n → take n xs ≡ xs
take_short zero [] h = refl
take_short (suc n) [] h = refl
take_short zero (x ∷ xs) h = absurd (omega arith)
take_short (suc n) (x ∷ xs) h = ap (λ l. x ∷ l) (take_short n xs (omega arith))

-- The line `key:`
abbrev pub bare_line : List ℕ → List ℕ
bare_line key = key ++ b':' ∷ []

module _ {D S : Type 0} (fl : Floats D S) where
  parse_value-nil : parse_value fl [] ≡ ok (record { success = false; rest = []; value = none })
  unfolding parse_value
  parse_value-nil = refl

  -- A new key without a value ends the parse with an error, and leaves an entry with no value.
  parse_entry-nil :
      (cfg : Cfg D) (key : CString)
      → IsCfg cfg
      → length cfg.entries < 2 ^ 62
      → look cfg key ≡ none
      → (cfg' : Cfg D) × (parse_entry fl cfg key [] ≡ ok (false, cfg'))
        × (look cfg' key ≡ some none)
  unfolding parse_entry store
  parse_entry-nil cfg key is small absent =
      let ((cfg', i), run, opened) = find_entry_or_add-IsOpened cfg key is small in
      (cfg', rw (run, parse_value-nil), ground (arith, opened.reads key, str_eq_refl key))

  -- The five getters fail to read an entry, and so does `cc_cfg_delete`.
  abbrev pub IsUnreadable : Cfg D → CString → Type 0
  IsUnreadable cfg text =
      ((o : Option CString) → get_str cfg o text ≡ fault)
      × ((o : Bool) → get_bool fl cfg o text ≡ fault)
      × ((o : ℕ) → get_int cfg o text ≡ fault)
      × ((o : S) → get_float fl cfg o text ≡ fault)
      × ((o : D) → get_double cfg o text ≡ fault)
      × (delete cfg ≡ fault)

  unreadable :
      (cfg : Cfg D) (key : CString)
      → length key ≤ 255
      → look cfg key ≡ some none
      → IsUnreadable cfg key
  unfolding key_buffer
  unreadable cfg key short unset =
      let whole : look cfg (key_buffer key) ≡ some none =
        ap (look cfg) (take_short 255 key short) ∙ unset in
      let (str, bool, int, float, double) = getters_fault fl cfg key whole in
      (str, bool, int, float, double, delete-fault cfg key unset)

  module _ (key more : List ℕ) (k : IsKey key) where
    bare-Visible : All Visible (bare_line key)
    bare-Visible = All-append Visible key (b':' ∷ []) (visible key k) (ground arith)
      where
        visible : (key : List ℕ) → IsKey key → All Visible key
        visible [] k = absurd k
        visible (c ∷ cs) k = k.3

    skip_spaces_bare :
        skip_spaces ((bare_line key) ++ b'\n' ∷ more) ≡ (bare_line key) ++ b'\n' ∷ more
    unfolding skip_spaces
    skip_spaces_bare = kept key k
      where
        kept :
            (key : List ℕ)
            → IsKey key
            → skip_spaces ((key ++ b':' ∷ []) ++ b'\n' ∷ more) ≡ (key ++ b':' ∷ []) ++ b'\n' ∷ more
        kept [] k = absurd k
        kept (c ∷ cs) k = rw k.0

    bare_comment : line_is_comment (bare_line key) ≡ false
    unfolding line_is_comment
    bare_comment = entry key k
      where
        entry : (key : List ℕ) → IsKey key → line_is_comment (key ++ b':' ∷ []) ≡ false
        entry [] k = absurd k
        entry (c ∷ []) k = ground arith
        entry (c ∷ d ∷ cs) k = ground arith

    parse_bare :
        (next : Cfg D → Outcome (Bool × Cfg D)) (cfg : Cfg D)
        → IsCfg cfg
        → length cfg.entries < 2 ^ 62
        → look cfg key ≡ none
        → (cfg' : Cfg D) × (parse_turn fl next cfg (bare_line key) ≡ ok (false, cfg'))
          × (look cfg' key ≡ some none)
    unfolding parse_turn parse_line
    parse_bare next cfg is small absent =
        let (cfg', run, unset) = parse_entry-nil cfg key is small absent in
        let parts =
          ap (split_at b':') (as_string-Visible (bare_line key) bare-Visible)
          ∙ split_at-append b':' key [] (plain_key key k) in
        let line : parse_line fl cfg (bare_line key) ≡ ok (false, cfg') =
          rw (parts, parse_line, run) in
        (cfg', rw (bare_comment, line), unset)

    -- A file of less than `2^62` bytes whose first line is a key of at most 255 bytes, a colon and
    -- nothing else: `cc_cfg_load` returns a configuration in which every getter for that key reads
    -- fields that were never written, and so does `cc_cfg_delete` of the configuration.
    pub load_missing_value :
        length key ≤ 255
        → length ((bare_line key) ++ b'\n' ∷ more) < 2 ^ 62
        → Returns
            (load fl (some ((bare_line key) ++ b'\n' ∷ more)))
            λ out. (cfg : Cfg D) × (out ≡ some cfg) × IsUnreadable cfg key
    unfolding load parse
    load_missing_value short small =
        let file = (bare_line key) ++ b'\n' ∷ more in
        let (l, run, taken) = read_line-text file 0 small in
        let (text, rest, going) = read-Visible (bare_line key) more bare-Visible in
        let bytes = taken.bytes_eq ∙ ap text_of skip_spaces_bare ∙ text in
        let rest_fuel : length file + 1 ≡ suc (length file) = omega arith in
        let (cfg', turn, unset) =
          parse_bare
            (λ c. parse_loop fl false (length file) c l.rest (feof false l.at_eof) l.capacity)
            (empty fl) (record { fits = omega arith; distinct = tt }) (omega arith) empty_look in
        let loop : parse_loop fl false (length file + 1) (empty fl) file false 0
            ≡ ok (false, cfg') =
          ap (λ fuel. parse_loop fl false fuel (empty fl) file false 0) rest_fuel
          ∙ parse_loop-step fl false (length file) (empty fl) file 0 l run
          ∙ ap
              (parse_turn fl
                (λ c. parse_loop fl false (length file) c l.rest (feof false l.at_eof) l.capacity)
                (empty fl))
              bytes
          ∙ turn in
        (some cfg', rw loop, (cfg', refl, unreadable cfg' key short unset))
      where
        empty_look : look (empty fl) key ≡ none
        empty_look = unfold look in refl
