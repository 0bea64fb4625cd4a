-- ===== src/Table/Buckets.antt =====
-- Buckets: which entries stand where, and what reading and replacing one bucket does to the others.
use ccore.Base.{
  ℕ, zero, suc, ◌+◌, ◌-◌, ◌%◌, ◌<◌, ◌≡◌, refl, Bool, true, false, none, some, inl, inr, List, [],
  ◌∷◌, arith, ◌==◌, if◌then◌else◌, length, set, Bool-cases,
}
use ccore.Base.CString.{CString, str_eq}
use mathlib.Core.Path.{subst}
use ccore.Base.Outcome.{Outcome, ok, Returns}
use ccore.Base.Words.{size_mod, bit_and-le}
use ccore.Table.{
  Slot, one_value, many_values, BucketNode, Bucket, Table, hash_string, bucket_idx, at, find_node,
}

-- The index of a bucket is within any capacity but 0, a power of two or not.
pub bucket_idx-lt :
    (key : CString) (capacity : ℕ)
    → 0 < capacity
    → capacity < size_mod
    → bucket_idx key capacity < capacity
unfolding bucket_idx
bucket_idx-lt key capacity pos small =
    omega (arith, bit_and-le (hash_string key) ((capacity + size_mod - 1) % size_mod))

module _ {V : Type 0} where
  -- The member of the union that the kind of the table says; an entry holds at least one value.
  abbrev pub IsKind : Bool → Slot V → Type 0
  IsKind false (one_value v) = Unit {0}
  IsKind false (many_values vs) = ⊥
  IsKind true (one_value v) = ⊥
  IsKind true (many_values []) = ⊥
  IsKind true (many_values (v ∷ vs)) = Unit {0}

  abbrev pub values : Slot V → List V
  values (one_value v) = v ∷ []
  values (many_values vs) = vs

  -- All nodes belong to bucket `i` of `capacity`, under keys of their own.
  abbrev pub IsBucket : ℕ → Bool → ℕ → Bucket V → Type 0
  IsBucket capacity many i [] = Unit {0}
  IsBucket capacity many i (n ∷ rest) =
      (bucket_idx n.key capacity ≡ i)
      × IsKind many n.slot
      × (find_node n.key rest ≡ none)
      × IsBucket capacity many i rest

  -- The buckets from index `i` on.
  abbrev pub IsBuckets : ℕ → Bool → ℕ → List (Bucket V) → Type 0
  IsBuckets capacity many i [] = Unit {0}
  IsBuckets capacity many i (b ∷ bs) =
      IsBucket capacity many i b × IsBuckets capacity many (suc i) bs

  unfoldable pub count_bucket : Bucket V → ℕ
  count_bucket [] = 0
  count_bucket (n ∷ rest) = length (values n.slot) + count_bucket rest

  unfoldable pub count_buckets : List (Bucket V) → ℕ
  unfolding count_bucket
  count_buckets [] = 0
  count_buckets (b ∷ bs) = count_bucket b + count_buckets bs

  -- The values that a bucket holds under a key.
  unfoldable pub values_in : CString → Bucket V → List V
  values_in key [] = []
  values_in key (n ∷ rest) = if str_eq key n.key then values n.slot else values_in key rest

  abbrev pub bucket_of : Outcome (Bucket V) → Bucket V
  bucket_of (ok b) = b
  bucket_of _ = []

  -- The values that the table holds under a key: the table as a function.
  unfoldable pub view : Table V → CString → List V
  view t key = values_in key (bucket_of (at t.buckets (bucket_idx key t.capacity)))

  pub record IsTable (t : Table V) : Type 0 where
    pub width : length t.buckets ≡ t.capacity
    pub positive : 0 < t.capacity
    pub small : t.capacity < size_mod
    pub placed : IsBuckets t.capacity t.allow_multiple 0 t.buckets
    pub counted : t.size ≡ count_buckets t.buckets % size_mod

  pub at-ok :
      (capacity : ℕ) (many : Bool) (i from : ℕ) (bs : List (Bucket V)) {j : ℕ}
      → IsBuckets capacity many from bs
      → i < length bs
      → from + i ≡ j
      → Returns (at bs i) (IsBucket capacity many j)
  unfolding at
  at-ok capacity many i from [] is h e = absurd (omega arith)
  at-ok capacity many zero from (b ∷ bs) is h e =
      let e' : from ≡ _ = omega arith in (b, refl, rw e' at is.0)
  at-ok capacity many (suc i) from (b ∷ bs) is h e =
      at-ok capacity many i (suc from) bs is.1 (omega arith) (omega arith)

  pub at-set :
      (i j : ℕ) (bs : List (Bucket V)) (b : Bucket V)
      → i < length bs
      → at (set bs i b) j ≡ (if i == j then ok b else at bs j)
  unfolding at
  at-set i j [] b h = absurd (omega arith)
  at-set zero zero (c ∷ bs) b h = refl
  at-set zero (suc j) (c ∷ bs) b h = ground arith
  at-set (suc i) zero (c ∷ bs) b h = ground arith
  at-set (suc i) (suc j) (c ∷ bs) b h = ground (arith, at-set i j bs b)

  pub set-IsBuckets :
      (capacity : ℕ) (many : Bool) (i from : ℕ) (bs : List (Bucket V)) (b : Bucket V) {j : ℕ}
      → IsBuckets capacity many from bs
      → IsBucket capacity many j b
      → from + i ≡ j
      → IsBuckets capacity many from (set bs i b)
  set-IsBuckets capacity many i from [] b is ib e = tt
  set-IsBuckets capacity many zero from (c ∷ bs) b {j} is ib e =
      let e' : j ≡ from = omega arith in (rw e' at ib, is.1)
  set-IsBuckets capacity many (suc i) from (c ∷ bs) b is ib e =
      (is.0, set-IsBuckets capacity many i (suc from) bs b is.1 ib (omega arith))

  pub count-set :
      (i : ℕ) (bs : List (Bucket V)) (b c : Bucket V)
      → at bs i ≡ ok c
      → count_buckets (set bs i b) + count_bucket c ≡ count_buckets bs + count_bucket b
  unfolding at count_buckets
  count-set i [] b c h = cc
  count-set zero (d ∷ bs) b c h = let same : d ≡ c = cc in rw same (omega arith)
  count-set (suc i) (d ∷ bs) b c h = omega (arith, count-set i bs b c h)

  pub values_in-none :
      (key : CString) (b : Bucket V) → find_node key b ≡ none → values_in key b ≡ []
  unfolding values_in find_node
  values_in-none key [] h = refl
  values_in-none key (n ∷ rest) h = ground (arith, values_in-none key rest)

  pub many_of : (slot : Slot V) → IsKind true slot → (vs : List V) × (slot ≡ many_values vs)
  many_of (one_value v) k = absurd k
  many_of (many_values vs) k = (vs, refl)

  pub one_of : (slot : Slot V) → IsKind false slot → (v : V) × (slot ≡ one_value v)
  one_of (one_value v) k = (v, refl)
  one_of (many_values vs) k = absurd k

  -- The node that the walk of a bucket finds holds the values of the key.
  pub found_values :
      (key : CString) (capacity i : ℕ) (many : Bool) (b : Bucket V) (n : BucketNode V)
      → IsBucket capacity many i b
      → find_node key b ≡ some n
      → (values_in key b ≡ values n.slot) × IsKind many n.slot
  unfolding find_node values_in
  found_values key capacity i many [] n placed h = cc
  found_values key capacity i many (m ∷ rest) n placed h = elim (Bool-cases (str_eq key m.key)) [
    | inl hit ↦
        let e : m ≡ n = ground arith in (rw (hit, e), subst (λ r. IsKind many r.slot) e placed.1)
    | inr miss ↦
        let (vs, kind) = found_values key capacity i many rest n placed.3 (ground arith) in
        (rw miss vs, kind)
  ]
