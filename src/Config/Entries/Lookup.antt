-- ===== src/Config/Entries/Lookup.antt =====
-- The entries as a function of the key: search, insertion and the writes of a value.
use ccore.Base.{
  ℕ, suc, ◌+◌, ◌^◌, ◌≤◌, ◌<◌, ◌≡◌, refl, ◌∙◌, ap, inl, inr, Option, none, some, List, [], ◌∷◌, ◌++◌,
  if◌then◌else◌, length, length-append, arith, Option-cases,
}
use ccore.Base.CString.{CString, str_eq, str_eq_iff, str_eq_refl}
use ccore.Base.Outcome.{ok, Returns}
use ccore.Config.Entries.{
  Value, Entry, Cfg, find_from, ensure, push_entry, find_entry_or_add, store,
}
use ccore.Config.Entries.Search.{
  IsCfg, IsDistinct, find_from-none, find_from-some, held, length-store_at, look, look_in,
  store_at-IsDistinct,
}

module _ {D : Type 0} where
  module _ (key : CString) where
    abbrev fresh : Entry D
    fresh = record { key = key; value = none }

    look_in-snoc :
        (es : List (Entry D)) (l : CString)
        → look_in key es ≡ none
        → look_in l (es ++ fresh ∷ []) ≡ (if str_eq l key then some none else look_in l es)
    unfolding look_in
    look_in-snoc [] l h = refl
    look_in-snoc (e ∷ es) l h =
        ground (arith, look_in-snoc es l, str_eq_iff l e.key, str_eq_iff l key)

    find_from-snoc :
        (i : ℕ) (es : List (Entry D))
        → look_in key es ≡ none
        → find_from key i (es ++ fresh ∷ []) ≡ some (i + length es, fresh)
    unfolding look_in find_from
    find_from-snoc i [] h = let start : i ≡ i + 0 = omega arith in ground (arith, str_eq_refl key)
    find_from-snoc i (e ∷ es) h =
        let shift : suc i + length es ≡ i + suc (length es) = omega arith in
        ground (arith, find_from-snoc (suc i) es)

    IsDistinct-snoc :
        (es : List (Entry D))
        → look_in key es ≡ none
        → IsDistinct es
        → IsDistinct (es ++ fresh ∷ [])
    unfolding look_in
    IsDistinct-snoc [] h d = (refl, tt)
    IsDistinct-snoc (e ∷ es) h d = (
      ground (arith, look_in-snoc es e.key, str_eq_iff e.key key, str_eq_refl key),
      IsDistinct-snoc es (ground arith) d.1,
    )

  ensure-lt :
      (cfg : Cfg D)
      → length cfg.entries < 2 ^ 62
      → length cfg.entries ≤ cfg.capacity
      → length cfg.entries < (ensure cfg).capacity
  unfolding ensure
  ensure-lt cfg small fits = ground arith

  ensure-entries : (cfg : Cfg D) → (ensure cfg).entries ≡ cfg.entries
  unfolding ensure
  ensure-entries cfg = ground arith

  -- Entry `i` of `cfg'` stands under `key`, with the value it had, or new; other keys are as before.
  pub record IsOpened (cfg cfg' : Cfg D) (key : CString) (i : ℕ) : Type 0 where
    pub valid : IsCfg cfg'
    pub entry : Entry D
    pub found : find_from key 0 cfg'.entries ≡ some (i, entry)
    pub value : entry.value ≡ held (look cfg key)
    pub reads :
        (j : CString)
        → look cfg' j ≡ (if str_eq j key then some (held (look cfg key)) else look cfg j)
    pub longer : length cfg'.entries ≤ length cfg.entries + 1

  module _ (cfg : Cfg D) (key : CString) (is : IsCfg cfg) where
    found-IsOpened :
        (i : ℕ) (e : Entry D) → find_from key 0 cfg.entries ≡ some (i, e) → IsOpened cfg cfg key i
    unfolding look
    found-IsOpened i e h =
        let (k, at, f) = find_from-some key 0 cfg.entries h in
        record {
          valid = is;
          entry = e;
          found = h;
          value = rw f.reads;
          reads = λ j. ground (arith, f.reads, str_eq_iff j key);
          longer = omega arith;
        }

    pushed : (capacity : ℕ) → Cfg D
    pushed capacity = record { capacity = capacity; entries = cfg.entries ++ fresh key ∷ [] }

    pushed-IsOpened :
        (capacity : ℕ)
        → find_from key 0 cfg.entries ≡ none
        → length cfg.entries < capacity
        → IsOpened cfg (pushed capacity) key (length cfg.entries)
    unfolding look pushed
    pushed-IsOpened capacity h room =
        let absent = find_from-none key 0 cfg.entries h in
        let longer = length-append cfg.entries (fresh key ∷ []) in
        record {
          valid = record {
            fits = omega (arith, longer);
            distinct = IsDistinct-snoc key cfg.entries absent is.distinct;
          };
          entry = fresh key;
          found =
              find_from-snoc key 0 cfg.entries absent ∙ ap (λ n. some (n, fresh key)) (omega arith);
          value = rw absent;
          reads = λ j. rw absent (look_in-snoc key cfg.entries j absent);
          longer = omega (arith, longer);
        }

    push_entry_run :
        (c : Cfg D)
        → c.entries ≡ cfg.entries
        → length cfg.entries < c.capacity
        → push_entry c key ≡ ok (pushed c.capacity, length cfg.entries)
    unfolding push_entry pushed
    push_entry_run c same room = ground arith

    -- The search for an entry, or the addition of one, never writes outside the array.
    pub find_entry_or_add-IsOpened :
        length cfg.entries < 2 ^ 62
        → Returns (find_entry_or_add cfg key) λ out. IsOpened cfg out.0 key out.1
    unfolding find_entry_or_add
    find_entry_or_add-IsOpened small = elim (Option-cases (find_from key 0 cfg.entries)) [
      | inl absent ↦
          let room = ensure-lt cfg small is.fits in
          (
            (pushed (ensure cfg).capacity, length cfg.entries),
            rw (absent, find_entry_or_add) (push_entry_run (ensure cfg) (ensure-entries cfg) room),
            pushed-IsOpened (ensure cfg).capacity absent room,
          )
      | inr ((i, e), present) ↦
          ((cfg, i), rw (present, find_entry_or_add), found-IsOpened i e present)
    ]

  -- A written value counts, and else the one before.
  abbrev pub written : Option (Value D) → Option (Value D) → Option (Value D)
  written none old = old
  written (some v) old = some v

  -- `cfg'` is well-formed, holds `w` under `key` and is else the function of the keys that `cfg` is.
  pub record IsAssigned (cfg cfg' : Cfg D) (key : CString) (w : Option (Value D)) : Type 0 where
    pub valid : IsCfg cfg'
    pub reads : (j : CString) → look cfg' j ≡ (if str_eq j key then some w else look cfg j)
    pub longer : length cfg'.entries ≤ length cfg.entries + 1

  pub store-IsAssigned :
      (cfg cfg' : Cfg D) (key : CString) (i : ℕ) (w : Option (Value D))
      → IsOpened cfg cfg' key i
      → IsAssigned cfg (store cfg' i w) key (written w (held (look cfg key)))
  unfolding store look
  store-IsAssigned cfg cfg' key i none o = record {
    valid = o.valid;
    reads = o.reads;
    longer = o.longer;
  }
  store-IsAssigned cfg cfg' key i (some v) o =
      let (k, at, f) = find_from-some key 0 cfg'.entries o.found in
      let here : i ≡ k = omega arith in
      let size = length-store_at v i cfg'.entries in
      record {
        valid = record {
          fits = omega (arith, o.valid.fits, size);
          distinct = store_at-IsDistinct v i cfg'.entries o.valid.distinct;
        };
        reads = λ j. rw (here, f.written v j) (ground (arith, o.reads j));
        longer = omega (arith, o.longer, size);
      }
