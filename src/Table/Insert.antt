-- ===== src/Table/Insert.antt =====
-- src/table.c: `cctable_init` and `cctable_insert`.
use ccore.Base.{
  ℕ, ◌<◌, ◌≡◌, refl, sym, ◌∙◌, ap, Bool, true, false, none, some, inl, inr, List, [], ◌∷◌, arith,
  ◌==◌, if◌then◌else◌, length, Bool-cases, Option-cases, length-set,
}
use ccore.Base.CString.{CString, str_eq, str_eq_iff, str_eq→eq}
use mathlib.Core.Path.{subst}
use ccore.Base.Outcome.{ok, Returns}
use ccore.Table.{
  Slot, one_value, many_values, BucketNode, Bucket, Table, bucket_idx, at, find_node, bumped,
  insert_single, insert_many, insert,
}
use ccore.Table.Buckets.{
  IsKind, values, IsBucket, values_in, bucket_of, view, IsTable, bucket_idx-lt, at-ok, at-set,
  set-IsBuckets, count-set, values_in-none, one_of, found_values,
}
use ccore.Table.Update.{IsChanged, cons-IsChanged, push_many-IsPushed, push_many_absent}

module _ {V : Type 0} where
  abbrev pub stored : Bool → V → List V → List V
  stored true v vs = v ∷ vs
  stored false v [] = v ∷ []
  stored false v (w ∷ ws) = w ∷ ws

  -- `t'` is a well-formed table of the same kind and capacity, and differs as a function of the
  -- keys at `key`, where it holds `vs`.
  pub record IsUpdate (t t' : Table V) (key : CString) (vs : List V) : Type 0 where
    pub table : IsTable t'
    pub kind : t'.allow_multiple ≡ t.allow_multiple
    pub capacity : t'.capacity ≡ t.capacity
    pub reads : (j : CString) → view t' j ≡ (if str_eq j key then vs else view t j)

  module _ (t : Table V) (key : CString) (is : IsTable t) where
    abbrev pub idx : ℕ
    idx = bucket_idx key t.capacity

    abbrev pub home : Bucket V
    home = bucket_of (at t.buckets idx)

    idx-lt : idx < length t.buckets
    idx-lt = rw is.width (bucket_idx-lt key t.capacity is.positive is.small)

    pub home-ok : (at t.buckets idx ≡ ok home) × IsBucket t.capacity t.allow_multiple idx home
    home-ok =
        let (b, run, placed) =
          at-ok t.capacity t.allow_multiple idx 0 t.buckets is.placed idx-lt (omega arith) in
        rw run (refl, placed)

    -- The replaced bucket is read at the keys that belong there, and only there.
    bumped-view :
        (vs : List V) (b' : Bucket V)
        → IsChanged key vs home b'
        → (j : CString) → view (bumped t idx b') j ≡ (if str_eq j key then vs else view t j)
    unfolding bumped view
    bumped-view vs b' to j =
        let stored_at = at-set idx (bucket_idx j t.capacity) t.buckets b' idx-lt in
        elim (Bool-cases (idx == bucket_idx j t.capacity)) [
          | inl same ↦
              let e : bucket_idx j t.capacity ≡ idx = ground arith in
              rw (stored_at, same, e) (to.reads j)
          | inr other ↦
              let e : str_eq j key ≡ false = ground (arith, str_eq_iff j key) in
              rw (stored_at, other, e)
        ]

    bumped-IsUpdate :
        (vs : List V) (b' : Bucket V)
        → IsBucket t.capacity t.allow_multiple idx b'
        → IsChanged key vs home b'
        → IsUpdate t (bumped t idx b') key vs
    unfolding bumped
    bumped-IsUpdate vs b' placed to = record {
      table = record {
        width = length-set t.buckets idx b' ∙ is.width;
        positive = is.positive;
        small = is.small;
        placed =
            set-IsBuckets t.capacity t.allow_multiple idx 0 t.buckets b' is.placed placed
              (omega arith);
        counted = omega (arith, is.counted, count-set idx t.buckets b' home home-ok.0, to.counted);
      };
      kind = refl;
      capacity = refl;
      reads = bumped-view vs b' to;
    }

    view-home : view t key ≡ values_in key home
    unfolding view
    view-home = refl

    unchanged-IsUpdate : (vs : List V) → vs ≡ view t key → IsUpdate t t key vs
    unchanged-IsUpdate vs e = record {
      table = is;
      kind = refl;
      capacity = refl;
      reads = λ j. elim (Bool-cases (str_eq j key)) [
        | inl same ↦ rw (same, e, str_eq→eq j key same)
        | inr other ↦ rw other
      ];
    }

    new_node-IsUpdate :
        (slot : Slot V)
        → find_node key home ≡ none
        → IsKind t.allow_multiple slot
        → length (values slot) ≡ 1
        → IsUpdate t (bumped t idx (record { key = key; slot = slot } ∷ home)) key (values slot)
    new_node-IsUpdate slot absent kind one =
        bumped-IsUpdate (values slot) (record { key = key; slot = slot } ∷ home)
          (refl, kind, absent, home-ok.1) (cons-IsChanged key slot home one)

    insert_single_run :
        (object : V) (b : Bucket V)
        → at t.buckets idx ≡ ok b
        → find_node key b ≡ none
        → insert_single t key object
          ≡ ok (bumped t idx (record { key = key; slot = one_value object } ∷ b))
    unfolding insert_single
    insert_single_run object b stands absent = ground arith

    insert_single_kept :
        (object : V) (b : Bucket V) (n : BucketNode V)
        → at t.buckets idx ≡ ok b
        → find_node key b ≡ some n
        → insert_single t key object ≡ ok t
    unfolding insert_single
    insert_single_kept object b n stands found = ground arith

    insert_single-IsUpdate :
        (object : V)
        → t.allow_multiple ≡ false
        → Returns
            (insert_single t key object)
            λ t'. IsUpdate t t' key (stored false object (view t key))
    unfolding insert_single
    insert_single-IsUpdate object single = elim (Option-cases (find_node key home)) [
      | inl absent ↦
          let none_yet = view-home ∙ values_in-none key home absent in
          (
            bumped t idx (record { key = key; slot = one_value object } ∷ home),
            insert_single_run object home home-ok.0 absent,
            rw none_yet (
                new_node-IsUpdate (one_value object) absent
                  (subst (λ b. IsKind b (one_value object)) (sym single) tt) refl),
          )
      | inr (n, found) ↦
          let (vs, kind) =
            found_values key t.capacity idx t.allow_multiple home n home-ok.1 found in
          let (w, slot) = one_of n.slot (subst (λ b. IsKind b n.slot) single kind) in
          let held = view-home ∙ vs ∙ ap values slot in
          (
            t,
            insert_single_kept object home n home-ok.0 found,
            unchanged-IsUpdate (stored false object (view t key)) (rw held),
          )
    ]

    insert_many-IsUpdate :
        (object : V)
        → t.allow_multiple ≡ true
        → Returns
            (insert_many t key object)
            λ t'. IsUpdate t t' key (stored true object (view t key))
    unfolding insert_many
    insert_many-IsUpdate object multiple = elim (Option-cases (find_node key home)) [
      | inl absent ↦
          let none_yet = view-home ∙ values_in-none key home absent in
          (
            bumped t idx (record { key = key; slot = many_values (object ∷ []) } ∷ home),
            rw (home-ok.0, push_many_absent key object home absent),
            rw none_yet (
                new_node-IsUpdate (many_values (object ∷ [])) absent
                  (subst (λ b. IsKind b (many_values (object ∷ []))) (sym multiple) tt) refl),
          )
      | inr (n, found) ↦
          let placed = subst (λ b. IsBucket t.capacity b idx home) multiple home-ok.1 in
          let (b', run, p) = push_many-IsPushed t.capacity idx key object home n placed found in
          (
            bumped t idx b',
            rw (home-ok.0, run),
            rw view-home (
                bumped-IsUpdate (object ∷ values_in key home) b'
                  (subst (λ b. IsBucket t.capacity b idx b') (sym multiple) p.bucket) p.changed),
          )
    ]

    -- `cctable_insert` on a well-formed table ends normally in a well-formed table of the same
    -- kind and capacity. Under the inserted key a multi-valued table then holds one more value, in
    -- front of the others; a single-valued one holds the value if there was none, and else keeps
    -- the old one. Under other keys nothing changes.
    pub insert-IsUpdate :
        (object : V)
        → Returns
            (insert t key object)
            λ t'. IsUpdate t t' key (stored t.allow_multiple object (view t key))
    unfolding insert
    insert-IsUpdate object =
        let Goal : Bool → Type 0 = λ b.
          Returns (if b then insert_many t key object else insert_single t key object)
            λ t'. IsUpdate t t' key (stored b object (view t key)) in
        elim (Bool-cases t.allow_multiple) [
          | inl multiple ↦ subst Goal (sym multiple) (insert_many-IsUpdate object multiple)
          | inr single ↦ subst Goal (sym single) (insert_single-IsUpdate object single)
        ]
