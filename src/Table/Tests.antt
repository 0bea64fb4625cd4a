-- ===== src/Table/Tests.antt =====
-- Runs of the table code, and the theorems at such inputs.
use Prim.Native.Char.{code}
use Prim.Native.String.{String}
use mathlib.Core.List.{head?, reverse, foldl}
use ccore.Base.{
  ℕ, ◌+◌, ◌*◌, ◌%◌, ◌^◌, ◌≤◌, ◌<◌, ◌≡◌, refl, true, false, List, [], ◌∷◌, arith, length,
}
use ccore.Base.CString.{CString}
use ccore.Base.Outcome.{Build, debug, ok, aborted, Returns}
use ccore.Base.Words.{size_mod}
use ccore.Table.{
  Table, smear, one_value, many_values, next_power_of_2, hash_string, bucket_idx, find_node, init,
  insert, get_one, get_many, iter,
}
use ccore.Table.Buckets.{IsTable, view, count_buckets}
use ccore.Table.PowerOfTwo.{next_power_of_2_lem}
use ccore.Table.Insert.{stored, IsUpdate, insert-IsUpdate}
use ccore.Table.Read.{or_null}
use ccore.Table.Iterate.{values_of, visit, iter-foldl}
use ccore.Table.History.{insert_all, history_many, history_one}

abbrev codes : String → CString
codes String.[] = []
codes (String.◌∷◌ c s) = code c ∷ codes s

abbrev key_a : CString
key_a = codes "a"

-- The first bytes of two keys, and the buckets of two that they choose.
bucket_of_a : (bucket_idx key_a 2 ≡ 1) × (bucket_idx (codes "b") 2 ≡ 0)
unfolding bucket_idx hash_string
bucket_of_a = (refl, refl)

next_power_of_2_values :
    (next_power_of_2 0 ≡ 0) × (next_power_of_2 5 ≡ 8) × (next_power_of_2 64 ≡ 64)
unfolding next_power_of_2 smear
next_power_of_2_values = (refl, refl, refl)

-- Above `2^32` the five shifts do not reach the lowest bits: the result is no power of two.
next_power_of_2_above : next_power_of_2 (2 ^ 40 + 1) + 2 ^ 9 ≡ 2 ^ 41 + 1
unfolding next_power_of_2 smear
next_power_of_2_above = refl

abbrev single : Table ℕ
single = record {
  capacity = 2;
  size = 1;
  allow_multiple = false;
  buckets = [] ∷ (record { key = key_a; slot = one_value 7 } ∷ []) ∷ [];
}

abbrev multi : Table ℕ
multi = record {
  capacity = 2;
  size = 2;
  allow_multiple = true;
  buckets = [] ∷ (record { key = key_a; slot = many_values (8 ∷ 7 ∷ []) } ∷ []) ∷ [];
}

single-IsTable : IsTable single
unfolding bucket_idx hash_string find_node count_buckets
single-IsTable = record {
  width = refl;
  positive = omega arith;
  small = omega arith;
  placed = (tt, ((refl, tt, refl, tt), tt));
  counted = refl;
}

multi-IsTable : IsTable multi
unfolding bucket_idx hash_string find_node count_buckets
multi-IsTable = record {
  width = refl;
  positive = omega arith;
  small = omega arith;
  placed = (tt, ((refl, tt, refl, tt), tt));
  counted = refl;
}

next_power_of_2_lem_example :
    (k : ℕ) × (next_power_of_2 33 ≡ 2 ^ k) × (33 ≤ 2 ^ k) × (2 ^ k < 2 * 33)
next_power_of_2_lem_example = next_power_of_2_lem 33 (omega arith) (omega arith)

insert-IsUpdate_example :
    Returns
      (insert multi (codes "b") 9)
      λ t'. IsUpdate multi t' (codes "b") (stored true 9 (view multi (codes "b")))
insert-IsUpdate_example = insert-IsUpdate multi (codes "b") multi-IsTable 9

get_wrong_kind : (get_one debug multi key_a ≡ aborted) × (get_many debug single key_a ≡ aborted)
unfolding get_one get_many
get_wrong_kind = (refl, refl)

iter-foldl_example :
    (ps : List (CString × ℕ)) × (iter multi (λ k v s. v ∷ s) []
      ≡ ok (foldl (visit (λ k v s. v ∷ s)) [] ps))
    × (2 ≡ length ps % size_mod)
    × ((key : CString) → values_of key ps ≡ view multi key)
iter-foldl_example = iter-foldl multi multi-IsTable (λ k v s. v ∷ s) []

abbrev history : List (CString × ℕ)
history = (key_a, 7) ∷ (codes "b", 5) ∷ (key_a, 8) ∷ []

history_many_example : Returns (insert_all (init 3 true) history) λ t.
    (build : Build) (key : CString)
    → get_many build t key ≡ ok (or_null (reverse (values_of key history)))
history_many_example = history_many 3 history (omega arith) (omega arith)

history_one_example :
    Returns (insert_all (init 3 false) history) λ t.
      (build : Build) (key : CString) → get_one build t key ≡ ok (head? (values_of key history))
history_one_example = history_one 3 history (omega arith) (omega arith)
