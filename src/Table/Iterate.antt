-- ===== src/Table/Iterate.antt =====
-- `cctable_iter` and `cctable_deinit`: which entries the walk over all buckets meets.
use mathlib.Core.List.{foldl, foldl-append, append-nil}
use mathlib.Core.Path.{subst}
use ccore.Base.{
  ℕ, zero, suc, ◌+◌, ◌%◌, ◌<◌, ◌≡◌, refl, sym, ◌∙◌, ap, Bool, true, false, Option, none, inl, inr,
  List, [], ◌∷◌, ◌++◌, map, arith, ◌==◌, if◌then◌else◌, length, Bool-cases, length-append,
  length-map,
}
use ccore.Base.CString.{CString, str_eq, str_eq_iff, str_eq→eq}
use ccore.Base.Outcome.{ok, ◌>>=◌}
use ccore.Base.Words.{size_mod}
use ccore.Table.{
  Slot, one_value, many_values, BucketNode, Bucket, Table, bucket_idx, at, find_node, iter_values,
  iter_node, iter_bucket, iter_buckets, iter, destroy_value, deinit,
}
use ccore.Table.Buckets.{
  IsKind, values, IsBucket, IsBuckets, count_bucket, count_buckets, values_in, bucket_of, view,
  IsTable, bucket_idx-lt,
}

module _ {V : Type 0} where
  -- All keys and values, in the order of the buckets and of the nodes in them.
  unfoldable pub bucket_entries : Bucket V → List (CString × V)
  bucket_entries [] = []
  bucket_entries (n ∷ rest) = map (λ v. (n.key, v)) (values n.slot) ++ bucket_entries rest

  unfoldable pub entries : List (Bucket V) → List (CString × V)
  unfolding bucket_entries
  entries [] = []
  entries (b ∷ bs) = bucket_entries b ++ entries bs

  -- The values that a list of entries gives a key.
  unfoldable pub values_of : CString → List (CString × V) → List V
  values_of key [] = []
  values_of key ((k, v) ∷ rest) =
      let others = values_of key rest in if str_eq key k then v ∷ others else others

  values_of-append :
      (key : CString) (ps qs : List (CString × V))
      → values_of key (ps ++ qs) ≡ values_of key ps ++ values_of key qs
  unfolding values_of
  values_of-append key [] qs = refl
  values_of-append key ((k, v) ∷ ps) qs = ground (arith, values_of-append key ps qs)

  values_of_node :
      (key k : CString) (vs : List V)
      → values_of key (map (λ v. (k, v)) vs) ≡ (if str_eq key k then vs else [])
  unfolding values_of
  values_of_node key k [] = ground arith
  values_of_node key k (v ∷ vs) = ground (arith, values_of_node key k vs)

  length-entries : (bs : List (Bucket V)) → length (entries bs) ≡ count_buckets bs
  unfolding entries count_buckets
  length-entries [] = refl
  length-entries (b ∷ bs) =
      omega
        (arith, length-append {0} (bucket_entries b) (entries bs), in_bucket b, length-entries bs)
    where
      in_bucket : (b : Bucket V) → length (bucket_entries b) ≡ count_bucket b
      in_bucket [] = refl
      in_bucket (n ∷ rest) = omega (
        arith,
        length-append {0} (map (λ (v : V). (n.key, v)) (values n.slot)) (bucket_entries rest),
        length-map {0, 0} {B = CString × V} (values n.slot) (λ (v : V). (n.key, v)),
        in_bucket rest,
      )

  values_of_nil : (key : CString) → values_of key [] ≡ []
  unfolding values_of
  values_of_nil key = refl

  values_of-cons :
      (key : CString) (n : BucketNode V) (rest : Bucket V)
      → values_of key (bucket_entries (n ∷ rest))
        ≡ (if str_eq key n.key then values n.slot else []) ++ values_of key (bucket_entries rest)
  unfolding bucket_entries
  values_of-cons key n rest =
      values_of-append key (map (λ v. (n.key, v)) (values n.slot)) (bucket_entries rest)
      ∙ ap (λ l. l ++ values_of key (bucket_entries rest))
          (values_of_node key n.key (values n.slot))

  values_of_absent :
      (key : CString) (b : Bucket V)
      → find_node key b ≡ none
      → values_of key (bucket_entries b) ≡ []
  unfolding find_node
  values_of_absent key [] h = unfold bucket_entries in values_of_nil key
  values_of_absent key (n ∷ rest) h =
      ground (arith, values_of-cons key n rest, values_of_absent key rest)

  values_of_bucket :
      (key : CString) (capacity i : ℕ) (many : Bool) (b : Bucket V)
      → IsBucket capacity many i b
      → values_of key (bucket_entries b) ≡ values_in key b
  unfolding values_in
  values_of_bucket key capacity i many [] is = unfold bucket_entries in values_of_nil key
  values_of_bucket key capacity i many (n ∷ rest) is =
      values_of-cons key n rest ∙ elim (Bool-cases (str_eq key n.key)) [
        | inl hit ↦
            let none_left =
              subst (λ k. values_of k (bucket_entries rest) ≡ []) (sym (str_eq→eq key n.key hit))
                (values_of_absent n.key rest is.2) in
            rw (hit, none_left) (append-nil (values n.slot))
        | inr miss ↦ rw miss (values_of_bucket key capacity i many rest is.3)
      ]

  values_of_other :
      (key : CString) (capacity i : ℕ) (many : Bool) (b : Bucket V)
      → IsBucket capacity many i b
      → (bucket_idx key capacity == i) ≡ false
      → values_of key (bucket_entries b) ≡ []
  values_of_other key capacity i many [] is away = unfold bucket_entries in values_of_nil key
  values_of_other key capacity i many (n ∷ rest) is away =
      let miss : str_eq key n.key ≡ false = ground (arith, str_eq_iff key n.key) in
      values_of-cons key n rest ∙ rw miss (values_of_other key capacity i many rest is.3 away)

  values_of_beyond :
      (key : CString) (capacity from : ℕ) (many : Bool) (bs : List (Bucket V))
      → IsBuckets capacity many from bs
      → bucket_idx key capacity < from
      → values_of key (entries bs) ≡ []
  unfolding entries
  values_of_beyond key capacity from many [] is before = values_of_nil key
  values_of_beyond key capacity from many (b ∷ bs) is before =
      values_of-append key (bucket_entries b) (entries bs)
      ∙ rw (values_of_other key capacity from many b is.0 (ground arith))
          (values_of_beyond key capacity (suc from) many bs is.1 (omega arith))

  values_of-entries :
      (key : CString) (capacity from i : ℕ) (many : Bool) (bs : List (Bucket V))
      → IsBuckets capacity many from bs
      → i < length bs
      → from + i ≡ bucket_idx key capacity
      → values_of key (entries bs) ≡ values_in key (bucket_of (at bs i))
  unfolding entries at
  values_of-entries key capacity from i many [] is h e = absurd (omega arith)
  values_of-entries key capacity from zero many (b ∷ bs) is h e =
      values_of-append key (bucket_entries b) (entries bs)
      ∙ rw (values_of_beyond key capacity (suc from) many bs is.1 (omega arith), append-nil)
          (values_of_bucket key capacity from many b is.0)
  values_of-entries key capacity from (suc i) many (b ∷ bs) is h e =
      values_of-append key (bucket_entries b) (entries bs)
      ∙ rw (values_of_other key capacity from many b is.0 (ground arith))
          (values_of-entries key capacity (suc from) i many bs is.1 (omega arith) (omega arith))

  module _ {S : Type 0} (callback : CString → V → S → S) where
    abbrev pub visit : S → CString × V → S
    visit s p = callback p.0 p.1 s

    iter_values-foldl :
        (key : CString) (vs : List V) (s : S)
        → iter_values callback key vs s ≡ foldl visit s (map (λ v. (key, v)) vs)
    unfolding iter_values
    iter_values-foldl key [] s = refl
    iter_values-foldl key (v ∷ vs) s = iter_values-foldl key vs (callback key v s)

    iter_node-foldl :
        (many : Bool) (key : CString) (slot : Slot V) (s : S)
        → IsKind many slot
        → iter_node many callback key slot s
          ≡ ok (foldl visit s (map (λ v. (key, v)) (values slot)))
    unfolding iter_node
    iter_node-foldl false key (one_value v) s k = refl
    iter_node-foldl false key (many_values vs) s k = absurd k
    iter_node-foldl true key (one_value v) s k = absurd k
    iter_node-foldl true key (many_values vs) s k = ap ok (iter_values-foldl key vs s)

    iter_bucket-foldl :
        (capacity i : ℕ) (many : Bool) (b : Bucket V) (s : S)
        → IsBucket capacity many i b
        → iter_bucket many callback b s ≡ ok (foldl visit s (bucket_entries b))
    unfolding iter_bucket bucket_entries
    iter_bucket-foldl capacity i many [] s is = refl
    iter_bucket-foldl capacity i many (n ∷ rest) s is =
        let here = map (λ v. (n.key, v)) (values n.slot) in
        rw (iter_node-foldl many n.key n.slot s is.1) (
          iter_bucket-foldl capacity i many rest (foldl visit s here) is.3
          ∙ ap ok (sym (foldl-append visit s here (bucket_entries rest))))

    iter_buckets-foldl :
        (capacity from : ℕ) (many : Bool) (bs : List (Bucket V)) (s : S)
        → IsBuckets capacity many from bs
        → iter_buckets many callback (length bs) bs s ≡ ok (foldl visit s (entries bs))
    unfolding iter_buckets entries
    iter_buckets-foldl capacity from many [] s is = refl
    iter_buckets-foldl capacity from many (b ∷ bs) s is =
        rw (iter_bucket-foldl capacity from many b s is.0) (
          iter_buckets-foldl capacity (suc from) many bs (foldl visit s (bucket_entries b)) is.1
          ∙ ap ok (sym (foldl-append visit s (bucket_entries b) (entries bs))))

  module _ (t : Table V) (is : IsTable t) where
    -- On a well-formed table `cctable_iter` ends normally and calls the callback on the entries of
    -- the table one after another: as many as its size says (modulo `2^64`), and for each key
    -- exactly the values that the table holds under it, in their order.
    pub iter-foldl :
        {S : Type 0} (callback : CString → V → S → S) (s : S)
        → (ps : List (CString × V)) × (iter t callback s ≡ ok (foldl (visit callback) s ps))
          × (t.size ≡ length ps % size_mod)
          × ((key : CString) → values_of key ps ≡ view t key)
    unfolding iter view
    iter-foldl callback s = (
      entries t.buckets,
      rw (← is.width)
          (iter_buckets-foldl callback t.capacity 0 t.allow_multiple t.buckets s is.placed),
      rw length-entries is.counted,
      λ key.
          values_of-entries key t.capacity 0 (bucket_idx key t.capacity) t.allow_multiple t.buckets
            is.placed (rw is.width (bucket_idx-lt key t.capacity is.positive is.small))
            (omega arith),
    )

    -- `cctable_deinit` on a well-formed table ends normally: it calls the destructor once for each
    -- value that the table held, and leaves a table with no buckets, of capacity and size 0.
    deinit-foldl :
        {S : Type 0} (des : Option (V → S → S)) (s : S)
        → (ps : List (CString × V)) × (deinit t des s
            ≡ ok (
              foldl (visit (λ key v u. destroy_value des v u)) s ps,
              record t { capacity = 0; size = 0; buckets = [] },
            ))
          × ((key : CString) → values_of key ps ≡ view t key)
    unfolding deinit iter
    deinit-foldl des s =
        let (ps, run, count, all) = iter-foldl (λ key v u. destroy_value des v u) s in
        (
          ps,
          ap (λ r. r >>= λ u. ok (u, record t { capacity = 0; size = 0; buckets = [] })) run,
          all,
        )
