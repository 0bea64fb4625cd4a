-- ===== src/Table/Read.antt =====
-- `cctable_init`, `cctable_get_one` and `cctable_get_many`: what a reader of the table sees.
use mathlib.Core.List.{head?}
use mathlib.Core.Path.{subst}
use ccore.Base.{
  ℕ, zero, suc, ◌*◌, ◌^◌, ◌≤◌, ◌<◌, ◌≡◌, refl, sym, ◌∙◌, ap, Bool, true, false, Option, none, some,
  inl, inr, List, [], ◌∷◌, arith, replicate, Option-cases, length-replicate,
}
use ccore.Base.CString.{CString}
use ccore.Base.Outcome.{Build, debug, release, ok}
use ccore.Table.{
  Slot, one_value, many_values, BucketNode, Bucket, Table, bucket_idx, at, find_node, init,
  next_power_of_2, get_one, get_many,
}
use ccore.Table.Buckets.{
  IsKind, values, IsBuckets, count_buckets, values_in, bucket_of, view, IsTable, values_in-none,
  found_values, one_of, many_of,
}
use ccore.Table.Insert.{home, home-ok}
use ccore.Table.PowerOfTwo.{next_power_of_2_lem}

-- `NULL` for no values
abbrev pub or_null {ℓ} : {A : Type ℓ} → List A → Option (List A)
or_null [] = none
or_null (v ∷ vs) = some (v ∷ vs)

empty-IsBuckets :
    (V : Type 0) (capacity : ℕ) (many : Bool) (from n : ℕ)
    → IsBuckets {V = V} capacity many from (replicate n [])
empty-IsBuckets V capacity many from zero = tt
empty-IsBuckets V capacity many from (suc n) = (tt, empty-IsBuckets V capacity many (suc from) n)

count_empty : (V : Type 0) (n : ℕ) → count_buckets {V = V} (replicate n []) ≡ 0
unfolding count_buckets
count_empty V zero = refl
count_empty V (suc n) = omega (arith, count_empty V n)

at-empty : (V : Type 0) (n i : ℕ) → bucket_of (at {A = Bucket V} (replicate n []) i) ≡ []
unfolding at
at-empty V zero i = refl
at-empty V (suc n) zero = refl
at-empty V (suc n) (suc i) = at-empty V n i

module _ (V : Type 0) where
  -- `cctable_init` for a count from 1 to `2^32` gives a well-formed table with at least that many
  -- buckets and fewer than twice as many, which holds no value under any key.
  pub init-IsTable :
      (count : ℕ) (many : Bool)
      → 1 ≤ count
      → count ≤ 2 ^ 32
      → IsTable (init {V = V} count many)
        × (count ≤ (init {V = V} count many).capacity)
        × ((init {V = V} count many).capacity < 2 * count)
        × ((j : CString) → view (init {V = V} count many) j ≡ [])
  unfolding init view values_in
  init-IsTable count many lo hi =
      let (k, is, enough, few) = next_power_of_2_lem count lo hi in
      (
        record {
          width = length-replicate (next_power_of_2 count) [];
          positive = omega arith;
          small = omega arith;
          placed = empty-IsBuckets V (next_power_of_2 count) many 0 (next_power_of_2 count);
          counted = rw (count_empty V (next_power_of_2 count));
        },
        omega arith,
        omega arith,
        λ j. rw (at-empty V (next_power_of_2 count) (bucket_idx j (next_power_of_2 count))),
      )

module _ {V : Type 0} (t : Table V) (key : CString) where
  get_one-none :
      (build : Build) (b : Bucket V)
      → t.allow_multiple ≡ false
      → at t.buckets (bucket_idx key t.capacity) ≡ ok b
      → find_node key b ≡ none
      → get_one build t key ≡ ok none
  unfolding get_one
  get_one-none debug b single stands absent = ground arith
  get_one-none release b single stands absent = ground arith

  get_one-some :
      (build : Build) (b : Bucket V) (n : BucketNode V) {v : V}
      → t.allow_multiple ≡ false
      → at t.buckets (bucket_idx key t.capacity) ≡ ok b
      → find_node key b ≡ some n
      → n.slot ≡ one_value v
      → get_one build t key ≡ ok (some v)
  unfolding get_one
  get_one-some debug b n single stands found held = ground arith
  get_one-some release b n single stands found held = ground arith

  get_many-none :
      (build : Build) (b : Bucket V)
      → t.allow_multiple ≡ true
      → at t.buckets (bucket_idx key t.capacity) ≡ ok b
      → find_node key b ≡ none
      → get_many build t key ≡ ok none
  unfolding get_many
  get_many-none debug b multiple stands absent = ground arith
  get_many-none release b multiple stands absent = ground arith

  get_many-some :
      (build : Build) (b : Bucket V) (n : BucketNode V) {vs : List V}
      → t.allow_multiple ≡ true
      → at t.buckets (bucket_idx key t.capacity) ≡ ok b
      → find_node key b ≡ some n
      → n.slot ≡ many_values vs
      → get_many build t key ≡ ok (some vs)
  unfolding get_many
  get_many-some debug b n multiple stands found held = ground arith
  get_many-some release b n multiple stands found held = ground arith

  filled : (slot : Slot V) → IsKind true slot → or_null (values slot) ≡ some (values slot)
  filled (one_value v) k = absurd k
  filled (many_values []) k = absurd k
  filled (many_values (v ∷ vs)) k = refl

  module _ (is : IsTable t) (build : Build) where
    abbrev stands : at t.buckets (bucket_idx key t.capacity) ≡ ok (home t key is)
    stands = (home-ok t key is).0

    -- On a well-formed single-valued table `cctable_get_one` returns the value under the key, or
    -- `NULL` where there is none, on either build.
    pub get_one_lem : t.allow_multiple ≡ false → get_one build t key ≡ ok (head? (view t key))
    unfolding view
    get_one_lem single = elim (Option-cases (find_node key (home t key is))) [
      | inl absent ↦
          get_one-none build (home t key is) single stands absent
          ∙ ap (λ vs. ok (head? vs)) (sym (values_in-none key (home t key is) absent))
      | inr (n, found) ↦
          let (held, kind) =
            found_values key t.capacity (bucket_idx key t.capacity) t.allow_multiple (home t key is)
              n (home-ok t key is).1 found in
          let (v, slot) = one_of n.slot (subst (λ b. IsKind b n.slot) single kind) in
          get_one-some build (home t key is) n single stands found slot
          ∙ ap (λ vs. ok (head? vs)) (sym (held ∙ ap values slot))
    ]

    -- On a well-formed multi-valued table `cctable_get_many` returns the list of all values under
    -- the key, or `NULL` where there is none, on either build.
    pub get_many_lem : t.allow_multiple ≡ true → get_many build t key ≡ ok (or_null (view t key))
    unfolding view
    get_many_lem multiple = elim (Option-cases (find_node key (home t key is))) [
      | inl absent ↦
          get_many-none build (home t key is) multiple stands absent
          ∙ ap (λ vs. ok (or_null vs)) (sym (values_in-none key (home t key is) absent))
      | inr (n, found) ↦
          let (held, kind) =
            found_values key t.capacity (bucket_idx key t.capacity) t.allow_multiple (home t key is)
              n (home-ok t key is).1 found in
          let kind' = subst (λ b. IsKind b n.slot) multiple kind in
          let (vs, slot) = many_of n.slot kind' in
          get_many-some build (home t key is) n multiple stands found slot
          ∙ ap ok (sym (ap or_null held ∙ filled n.slot kind' ∙ ap some (ap values slot)))
    ]
