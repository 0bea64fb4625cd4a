-- ===== src/Table/Update.antt =====
-- src/table.c: one bucket of the table before and after an insertion.
use ccore.Base.{
  ℕ, ◌+◌, ◌≡◌, refl, true, none, some, inl, inr, List, [], ◌∷◌, arith, if◌then◌else◌, length,
  Bool-cases,
}
use ccore.Base.CString.{CString, str_eq, str_eq_iff, str_eq_refl}
use ccore.Base.Outcome.{ok}
use ccore.Table.{Slot, many_values, BucketNode, Bucket, find_node, push_many}
use ccore.Table.Buckets.{values, IsBucket, count_bucket, values_in, many_of}

module _ {V : Type 0} where
  -- A bucket that holds the values `vs` under `key`, one more than before, and is else the same.
  pub record IsChanged (key : CString) (vs : List V) (b b' : Bucket V) : Type 0 where
    pub reads : (j : CString) → values_in j b' ≡ (if str_eq j key then vs else values_in j b)
    pub counted : count_bucket b' ≡ count_bucket b + 1

  pub cons-IsChanged :
      (key : CString) (slot : Slot V) (b : Bucket V)
      → length (values slot) ≡ 1
      → IsChanged key (values slot) b (record { key = key; slot = slot } ∷ b)
  unfolding values_in count_bucket
  cons-IsChanged key slot b one = record { reads = λ j. refl; counted = omega arith }

  -- A found node of a multi-valued bucket takes the object in front of its values.
  pub record IsPushed (capacity i : ℕ) (key : CString) (object : V) (b b' : Bucket V) : Type 0 where
    pub bucket : IsBucket capacity true i b'
    pub changed : IsChanged key (object ∷ values_in key b) b b'
    pub absent : (j : CString) → find_node j b ≡ none → find_node j b' ≡ none

  pub push_many-IsPushed :
      (capacity i : ℕ) (key : CString) (object : V) (b : Bucket V) (n : BucketNode V)
      → IsBucket capacity true i b
      → find_node key b ≡ some n
      → (b' : Bucket V) × (push_many key object b ≡ ok (some b'))
        × IsPushed capacity i key object b b'
  unfolding push_many find_node values_in count_bucket
  push_many-IsPushed capacity i key object [] n is h = cc
  push_many-IsPushed capacity i key object (m ∷ rest) n is h =
      elim (Bool-cases (str_eq key m.key)) [
        | inl hit ↦
            let (vs, kind) = many_of m.slot is.1 in
            let slot : Slot V = many_values (object ∷ vs) in
            (
              record m { slot = slot } ∷ rest,
              rw (hit, kind),
              record {
                bucket = (is.0, tt, is.2, is.3);
                changed = record {
                  reads = λ j. ground (arith, str_eq_iff j key, str_eq_iff key m.key);
                  counted = rw kind (omega arith);
                };
                absent = λ j none_before. ground arith;
              },
            )
        | inr miss ↦
            let (b', run, p) =
              push_many-IsPushed capacity i key object rest n is.3 (ground arith) in
            (
              m ∷ b',
              rw (miss, run),
              record {
                bucket = (is.0, is.1, p.absent m.key is.2, p.bucket);
                changed = record {
                  reads = λ j. ground (
                    arith,
                    p.changed.reads j,
                    str_eq_iff j key,
                    str_eq_iff j m.key,
                    str_eq_refl key,
                  );
                  counted = omega (arith, p.changed.counted);
                };
                absent = λ j none_before. ground (arith, p.absent j);
              },
            )
      ]

  pub push_many_absent :
      (key : CString) (object : V) (b : Bucket V)
      → find_node key b ≡ none
      → push_many key object b ≡ ok none
  unfolding push_many find_node
  push_many_absent key object [] h = refl
  push_many_absent key object (m ∷ rest) h = ground (arith, push_many_absent key object rest)
  -- What the kind of the table makes of an object stored under a key with the values `vs`: one more
  -- value in front, or, in a single-valued table, a value only where there was none.
