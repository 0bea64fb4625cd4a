-- ===== src/Table.antt =====
-- src/table.c and include/ccore/table.h: the string-indexed, optionally multi-valued hash table.
-- A bucket and the values of a multi-valued entry are `cclist_t` lists, walked from
-- `cclist_first` by `cclist_next` and extended by `cclist_insert_first`; they stand here as the
-- sequences of their objects, first object first, which is what `LinkedList` shows of those calls.
pub mod Buckets
pub mod History
pub mod Insert
pub mod Iterate
pub mod PowerOfTwo
pub mod Read
pub mod Update
mod Tests
use Prim.Native.Nat.{bit_and, bit_or, bit_xor}
use ccore.Base.{
  ℕ, zero, suc, ◌+◌, ◌-◌, ◌*◌, ◌/◌, ◌%◌, ◌^◌, ◌<◌, Bool, true, false, not, Option, none, some, List,
  [], ◌∷◌, ◌++◌, ltb, if◌then◌else◌, set, replicate,
}
use ccore.Base.CString.{CString, str_eq}
use ccore.Base.Outcome.{Build, Outcome, ok, fault, ◌>>=◌, ◌>>◌, assert}
use ccore.Base.Words.{size_mod}

-- `size_t` is 64 bits wide; five shifts smear the highest bit over 32 places.
unfoldable pub smear : ℕ → ℕ
smear v =
    let v₁ = bit_or v (v / 2 ^ 1) in
    let v₂ = bit_or v₁ (v₁ / 2 ^ 2) in
    let v₃ = bit_or v₂ (v₂ / 2 ^ 4) in let v₄ = bit_or v₃ (v₃ / 2 ^ 8) in bit_or v₄ (v₄ / 2 ^ 16)

unfoldable pub next_power_of_2 : ℕ → ℕ
next_power_of_2 v = (smear ((v + size_mod - 1) % size_mod) + 1) % size_mod

-- A `char` is signed, so a byte from 128 on extends to all 64 bits.
char_bits : ℕ → ℕ
char_bits c = if ltb c 128 then c else c + (size_mod - 256)

hash_from : ℕ → CString → ℕ
unfolding char_bits
hash_from hash [] = hash
hash_from hash (c ∷ string) =
    hash_from (bit_xor hash (char_bits c) * 0x100000001b3 % size_mod) string

-- FNV-1a
unfoldable pub hash_string : CString → ℕ
unfolding hash_from
hash_string string = hash_from 0x84222325cbf29ce4 string

-- The union in `ccbucket_node_t`: which member was last written.
pub data Slot (V : Type 0) : Type 0 where
  one_value : V → Slot V
  many_values : List V → Slot V

pub record BucketNode (V : Type 0) : Type 0 where
  pub key : CString
  pub slot : Slot V

abbrev pub Bucket : Type 0 → Type 0
Bucket V = List (BucketNode V)

pub record Table (V : Type 0) : Type 0 where
  pub capacity : ℕ
  pub size : ℕ
  pub allow_multiple : Bool
  pub buckets : List (Bucket V)

-- `hash_string(key) & (table->capacity-1)`
unfoldable pub bucket_idx : CString → ℕ → ℕ
bucket_idx key capacity = bit_and (hash_string key) ((capacity + size_mod - 1) % size_mod)

-- `table->buckets[i]`
pub at {ℓ} : {A : Type ℓ} → List A → ℕ → Outcome A
at [] i = fault
at (x ∷ xs) zero = ok x
at (x ∷ xs) (suc i) = at xs i

module _ {V : Type 0} where
  unfoldable pub init : ℕ → Bool → Table V
  init count allow_multiple =
      let capacity = next_power_of_2 count in
      record {
        capacity = capacity;
        size = 0;
        allow_multiple = allow_multiple;
        buckets = replicate capacity [];
      }

  -- The walk of a bucket for the node whose key is `key`.
  pub find_node : CString → Bucket V → Option (BucketNode V)
  find_node key [] = none
  find_node key (node ∷ rest) = if str_eq key node.key then some node else find_node key rest

  pub bumped : Table V → ℕ → Bucket V → Table V
  bumped t i bucket = record t { size = (t.size + 1) % size_mod; buckets = set t.buckets i bucket }

  unfoldable pub insert_single : Table V → CString → V → Outcome (Table V)
  unfolding at find_node bumped bucket_idx
  insert_single t key object = do
    let i = bucket_idx key t.capacity
    bucket ← at t.buckets i
    elim (find_node key bucket) [
      | some node ↦ ok t
      | none ↦ ok (bumped t i (record { key = key; slot = one_value object } ∷ bucket))
    ]

  -- `cclist_insert_first(&node->many_values, value_many_new(object))`
  unfoldable pub push_value : V → Slot V → Outcome (Slot V)
  push_value object (one_value v) = fault
  push_value object (many_values vs) = ok (many_values (object ∷ vs))

  -- The walk of a bucket that adds the object to the first node with the key; `none` if none has.
  pub push_many : CString → V → Bucket V → Outcome (Option (Bucket V))
  unfolding push_value
  push_many key object [] = ok none
  push_many key object (node ∷ rest) =
      let hit : Outcome (Option (Bucket V)) = (do
        slot ← push_value object node.slot
        ok (some (record node { slot = slot } ∷ rest))) in
      let miss : Outcome (Option (Bucket V)) = (do
        found ← push_many key object rest
        ok (elim found [ none ↦ none | some rest' ↦ some (node ∷ rest') ])) in
      if str_eq key node.key then hit else miss

  unfoldable pub insert_many : Table V → CString → V → Outcome (Table V)
  unfolding at push_many bumped bucket_idx
  insert_many t key object = do
    let i = bucket_idx key t.capacity
    bucket ← at t.buckets i
    found ← push_many key object bucket
    elim found [
      | some bucket' ↦ ok (bumped t i bucket')
      | none ↦ ok (bumped t i (record { key = key; slot = many_values (object ∷ []) } ∷ bucket))
    ]

  unfoldable pub insert : Table V → CString → V → Outcome (Table V)
  insert t key object =
      if t.allow_multiple then insert_many t key object else insert_single t key object

  -- A read of the union's other member is undefined.
  pub read_many : Slot V → Outcome (Option (List V))
  read_many (one_value v) = fault
  read_many (many_values vs) = ok (some vs)

  pub read_one : Slot V → Outcome (Option V)
  read_one (one_value v) = ok (some v)
  read_one (many_values vs) = fault

  -- `NULL` where the key is absent
  unfoldable pub get_many : Build → Table V → CString → Outcome (Option (List V))
  unfolding at find_node bucket_idx read_many
  get_many build t key = do
    assert build t.allow_multiple
    bucket ← at t.buckets (bucket_idx key t.capacity)
    elim (find_node key bucket) [ none ↦ ok none | some node ↦ read_many node.slot ]

  unfoldable pub get_one : Build → Table V → CString → Outcome (Option V)
  unfolding at find_node bucket_idx read_one
  get_one build t key = do
    assert build (not t.allow_multiple)
    bucket ← at t.buckets (bucket_idx key t.capacity)
    elim (find_node key bucket) [ none ↦ ok none | some node ↦ read_one node.slot ]

module _ {V S : Type 0} where
  -- `for(value = first; value; value = next) callback(n->key, value->value, ptr)`
  pub iter_values : (CString → V → S → S) → CString → List V → S → S
  iter_values callback key [] state = state
  iter_values callback key (v ∷ vs) state = iter_values callback key vs (callback key v state)

  pub iter_node : Bool → (CString → V → S → S) → CString → Slot V → S → Outcome S
  unfolding iter_values
  iter_node false callback key (one_value v) state = ok (callback key v state)
  iter_node false callback key (many_values vs) state = fault
  iter_node true callback key (one_value v) state = fault
  iter_node true callback key (many_values vs) state = ok (iter_values callback key vs state)

  pub iter_bucket : Bool → (CString → V → S → S) → Bucket V → S → Outcome S
  unfolding iter_node
  iter_bucket many callback [] state = ok state
  iter_bucket many callback (n ∷ rest) state =
      iter_node many callback n.key n.slot state >>= iter_bucket many callback rest

  -- `for(size_t i = 0; i < table->capacity; ++i)`
  pub iter_buckets : Bool → (CString → V → S → S) → ℕ → List (Bucket V) → S → Outcome S
  unfolding iter_bucket
  iter_buckets many callback zero bs state = ok state
  iter_buckets many callback (suc left) [] state = fault
  iter_buckets many callback (suc left) (b ∷ bs) state =
      iter_bucket many callback b state >>= iter_buckets many callback left bs

  -- `cctable_iter`, with a callback that changes the state behind `ptr`
  unfoldable pub iter : Table V → (CString → V → S → S) → S → Outcome S
  unfolding iter_buckets
  iter t callback ptr = iter_buckets t.allow_multiple callback t.capacity t.buckets ptr

  -- `if(data->destructor) data->destructor(value, data->user_data);`
  pub destroy_value : Option (V → S → S) → V → S → S
  destroy_value none v s = s
  destroy_value (some d) v s = d v s

  -- The destructors of nodes pass on the value, not the key: `cctable_deinit` walks as `iter` does.
  unfoldable pub deinit : Table V → Option (V → S → S) → S → Outcome (S × Table V)
  unfolding iter_buckets destroy_value
  deinit t des ptr = do
    state ←
        iter_buckets t.allow_multiple (λ key v s. destroy_value des v s) t.capacity t.buckets ptr
    ok (state, record t { capacity = 0; size = 0; buckets = [] })
