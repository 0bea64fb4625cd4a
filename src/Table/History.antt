-- ===== src/Table/History.antt =====
-- A table built by `cctable_init` and any sequence of `cctable_insert`s, as its readers see it.
use mathlib.Core.List.{head?, reverse, append_assoc, reverse-append, append-nil}
use ccore.Base.{
  ℕ, ◌^◌, ◌≤◌, ◌≡◌, refl, sym, ◌∙◌, ap, Bool, true, false, inl, inr, List, [], ◌∷◌, ◌++◌,
  if◌then◌else◌, Bool-cases,
}
use ccore.Base.CString.{CString, str_eq, str_eq→eq}
use ccore.Base.Outcome.{Build, Outcome, ok, ◌>>=◌, Returns}
use ccore.Table.{Table, init, insert, get_one, get_many}
use ccore.Table.Buckets.{IsTable, view}
use ccore.Table.Insert.{stored, IsUpdate, insert-IsUpdate}
use ccore.Table.Iterate.{values_of}
use ccore.Table.Read.{or_null, init-IsTable, get_one_lem, get_many_lem}

init_kind : (V : Type 0) (count : ℕ) (many : Bool) → (init {V = V} count many).allow_multiple ≡ many
unfolding init
init_kind V count many = refl

module _ {V : Type 0} where
  -- A client's calls of `cctable_insert`, first call first.
  abbrev pub insert_all : Table V → List (CString × V) → Outcome (Table V)
  insert_all t [] = ok t
  insert_all t ((key, object) ∷ rest) = insert t key object >>= λ t'. insert_all t' rest

  -- What a history of insertions leaves under a key that held `vs`.
  abbrev pub remembers : Bool → List V → List V → List V
  remembers many vs [] = vs
  remembers many vs (v ∷ later) = remembers many (stored many v vs) later

  values_of-insert :
      (many : Bool) (key k : CString) (v : V) (vs : List V) (rest : List (CString × V))
      → remembers many (if str_eq key k then stored many v vs else vs) (values_of key rest)
        ≡ remembers many vs (values_of key ((k, v) ∷ rest))
  unfolding values_of
  values_of-insert many key k v vs rest = elim (Bool-cases (str_eq key k)) [
    | inl same ↦ rw same
    | inr other ↦ rw other
  ]

  insert_all-view :
      (t : Table V) (ps : List (CString × V))
      → IsTable t
      → Returns (insert_all t ps) λ t'.
        IsTable t'
        × (t'.allow_multiple ≡ t.allow_multiple)
        × ((j : CString) → view t' j ≡ remembers t.allow_multiple (view t j) (values_of j ps))
  insert_all-view t [] is = (t, refl, (is, refl, λ j. unfold values_of in refl))
  insert_all-view t ((key, object) ∷ rest) is =
      let (t₁, run, up) = insert-IsUpdate t key is object in
      let (t₂, runs, (is₂, kind, reads)) = insert_all-view t₁ rest up.table in
      (
        t₂,
        rw run runs,
        (
          is₂,
          kind ∙ up.kind,
          λ j.
              reads j
              ∙ ap (λ b. remembers b (view t₁ j) (values_of j rest)) up.kind
              ∙ ap (λ vs. remembers t.allow_multiple vs (values_of j rest))
                  (stored_at t key object t₁ up j)
              ∙ values_of-insert t.allow_multiple j key object (view t j) rest,
        ),
      )
    where
      stored_at :
          (t : Table V) (key : CString) (object : V) (t₁ : Table V)
          → IsUpdate t t₁ key (stored t.allow_multiple object (view t key))
          → (j : CString)
          → view t₁ j
            ≡ (if str_eq j key then stored t.allow_multiple object (view t j) else view t j)
      stored_at t key object t₁ up j = elim (Bool-cases (str_eq j key)) [
        | inl same ↦ up.reads j ∙ rw (same, str_eq→eq j key same)
        | inr other ↦ up.reads j ∙ rw other
      ]

  remembers_many : (vs ws : List V) → remembers true vs ws ≡ reverse ws ++ vs
  remembers_many vs [] = refl
  remembers_many vs (w ∷ ws) =
      remembers_many (w ∷ vs) ws
      ∙ sym (append_assoc (reverse ws) (w ∷ []) vs)
      ∙ ap (λ l. l ++ vs) (sym (reverse-append (w ∷ []) ws))

  remembers_one : (v : V) (vs ws : List V) → head? (remembers false (v ∷ vs) ws) ≡ head? (v ∷ vs)
  remembers_one v vs [] = refl
  remembers_one v vs (w ∷ ws) = remembers_one v vs ws

  remembers_first : (ws : List V) → head? (remembers false [] ws) ≡ head? ws
  remembers_first [] = refl
  remembers_first (w ∷ ws) = remembers_one w [] ws

  module _ (count : ℕ) (ps : List (CString × V)) (lo : 1 ≤ count) (hi : count ≤ 2 ^ 32) where
    -- A multi-valued table, initialised for a count from 1 to `2^32` and then given any sequence of
    -- insertions: no call faults, and `cctable_get_many` then returns all objects that were inserted
    -- under the key, the latest first, or `NULL` if there was none.
    pub history_many : Returns (insert_all (init count true) ps) λ t.
        (build : Build) (key : CString)
        → get_many build t key ≡ ok (or_null (reverse (values_of key ps)))
    history_many =
        let (is, enough, few, empty) = init-IsTable V count true lo hi in
        let (t, run, (is', kind, reads)) = insert_all-view (init count true) ps is in
        (
          t,
          run,
          λ build key.
              get_many_lem t key is' build (kind ∙ init_kind V count true)
              ∙ ap (λ vs. ok (or_null vs))
                  (reads key
                    ∙ ap (λ b. remembers b (view (init count true) key) (values_of key ps))
                        (init_kind V count true)
                    ∙ ap (λ vs. remembers true vs (values_of key ps)) (empty key)
                    ∙ remembers_many [] (values_of key ps)
                    ∙ append-nil (reverse (values_of key ps))),
        )

    -- A single-valued table likewise: `cctable_get_one` then returns the object that was inserted
    -- first under the key, whatever was inserted later, or `NULL` if there was none.
    pub history_one :
        Returns
          (insert_all (init count false) ps)
          λ t. (build : Build) (key : CString) → get_one build t key ≡ ok (head? (values_of key ps))
    history_one =
        let (is, enough, few, empty) = init-IsTable V count false lo hi in
        let (t, run, (is', kind, reads)) = insert_all-view (init count false) ps is in
        (
          t,
          run,
          λ build key.
              get_one_lem t key is' build (kind ∙ init_kind V count false)
              ∙ ap (λ vs. ok (head? vs))
                  (reads key
                    ∙ ap (λ b. remembers b (view (init count false) key) (values_of key ps))
                        (init_kind V count false)
                    ∙ ap (λ vs. remembers false vs (values_of key ps)) (empty key))
              ∙ ap ok (remembers_first (values_of key ps)),
        )
