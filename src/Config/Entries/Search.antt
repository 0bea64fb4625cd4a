-- ===== src/Config/Entries/Search.antt =====
-- src/cfg.c: the search for a key among the entries, and the entry that it finds.
use ccore.Base.{
  ℕ, zero, suc, ◌+◌, ◌≤◌, ◌≡◌, refl, ap, inl, inr, Option, none, some, List, [], ◌∷◌, if◌then◌else◌,
  length, arith, Bool-cases,
}
use ccore.Base.CString.{CString, str_eq, str_eq_iff, str_eq_refl}
use ccore.Config.Entries.{Value, Entry, Cfg, find_from, store_at}

module _ {D : Type 0} where
  -- The value under a key: `none` without an entry, `some none` where nothing has been written yet.
  unfoldable pub look_in : CString → List (Entry D) → Option (Option (Value D))
  look_in key [] = none
  look_in key (e ∷ es) = if str_eq key e.key then some e.value else look_in key es

  unfoldable pub look : Cfg D → CString → Option (Option (Value D))
  unfolding look_in
  look cfg key = look_in key cfg.entries

  abbrev pub IsDistinct : List (Entry D) → Type 0
  IsDistinct [] = Unit {0}
  IsDistinct (e ∷ es) = (look_in e.key es ≡ none) × IsDistinct es

  -- The entries fit the array and have keys of their own.
  pub record IsCfg (cfg : Cfg D) : Type 0 where
    pub fits : length cfg.entries ≤ cfg.capacity
    pub distinct : IsDistinct cfg.entries

  -- What the fields hold before an entry's value is written.
  abbrev pub held : Option (Option (Value D)) → Option (Value D)
  held none = none
  held (some v) = v

  pub find_from-none :
      (key : CString) (i : ℕ) (es : List (Entry D))
      → find_from key i es ≡ none
      → look_in key es ≡ none
  unfolding find_from look_in
  find_from-none key i [] h = refl
  find_from-none key i (e ∷ es) h = ground (arith, find_from-none key (suc i) es)

  -- Entry `k` is the first under `key`.
  pub record IsFound (key : CString) (k : ℕ) (es : List (Entry D)) (e : Entry D) : Type 0 where
    pub reads : look_in key es ≡ some e.value
    pub named : e.key ≡ key
    pub written :
        (v : Value D) (j : CString)
        → look_in j (store_at v k es) ≡ (if str_eq j key then some (some v) else look_in j es)

  pub find_from-some :
      (key : CString) (i : ℕ) (es : List (Entry D)) {j : ℕ} {e : Entry D}
      → find_from key i es ≡ some (j, e)
      → (k : ℕ) × (j ≡ i + k) × IsFound key k es e
  unfolding find_from look_in store_at
  find_from-some key i [] h = cc
  find_from-some key i (d ∷ es) {j} {e} h = elim (Bool-cases (str_eq key d.key)) [
    | inl hit ↦
        let same : d ≡ e = ground arith in
        let here : i ≡ j = ground arith in
        (
          0,
          omega arith,
          record {
            reads = rw (hit, same);
            named = ground (arith, str_eq_iff key d.key);
            written =
                λ v l. ground (arith, str_eq_iff key d.key, str_eq_iff l d.key, str_eq_iff l key);
          },
        )
    | inr miss ↦
        let (k, at, f) = find_from-some key (suc i) es {j = j} {e = e} (ground arith) in
        (
          suc k,
          omega arith,
          record {
            reads = rw miss f.reads;
            named = f.named;
            written = λ v l.
                ground
                  (arith, f.written v l, str_eq_iff l d.key, str_eq_iff l key, str_eq_refl key);
          },
        )
  ]

  pub find_from-look_in :
      (key : CString) (es : List (Entry D)) {j : ℕ} {e : Entry D}
      → find_from key 0 es ≡ some (j, e)
      → look_in key es ≡ some e.value
  find_from-look_in key es h = let (k, at, f) = find_from-some key 0 es h in f.reads

  look_in-store_at :
      (v : Value D) (l : CString) (k : ℕ) (es : List (Entry D))
      → look_in l es ≡ none
      → look_in l (store_at v k es) ≡ none
  unfolding look_in store_at
  look_in-store_at v l zero [] h = refl
  look_in-store_at v l (suc k) [] h = refl
  look_in-store_at v l zero (e ∷ es) h = ground arith
  look_in-store_at v l (suc k) (e ∷ es) h = ground (arith, look_in-store_at v l k es)

  pub store_at-IsDistinct :
      (v : Value D) (k : ℕ) (es : List (Entry D)) → IsDistinct es → IsDistinct (store_at v k es)
  unfolding store_at
  store_at-IsDistinct v zero [] d = tt
  store_at-IsDistinct v (suc k) [] d = tt
  store_at-IsDistinct v zero (e ∷ es) d = d
  store_at-IsDistinct v (suc k) (e ∷ es) d =
      (look_in-store_at v e.key k es d.0, store_at-IsDistinct v k es d.1)

  pub length-store_at :
      (v : Value D) (k : ℕ) (es : List (Entry D)) → length (store_at v k es) ≡ length es
  unfolding store_at
  length-store_at v zero [] = refl
  length-store_at v (suc k) [] = refl
  length-store_at v zero (e ∷ es) = refl
  length-store_at v (suc k) (e ∷ es) = ap suc (length-store_at v k es)
