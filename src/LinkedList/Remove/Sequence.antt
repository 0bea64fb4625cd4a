-- ===== src/LinkedList/Remove/Sequence.antt =====
-- The removals on the sequence of objects that a list stands for.
use mathlib.Core.List.{append-nil, map-append}
use mathlib.Core.Path.{subst}
use ccore.Base.{
  ◌<◌, ◌≡◌, refl, sym, ◌≢◌, false, some, List, [], ◌∷◌, ◌++◌, map, arith, ◌==◌, length,
  length-append,
}
use ccore.Base.Outcome.{Build, ok, Returns}
use ccore.Base.Words.{size_mod}
use ccore.LinkedList.{Lists, get_node, shrunk, remove, remove_first, remove_last}
use ccore.LinkedList.Memory.{Ptr, Mem, null, next_at, prev_at}
use ccore.LinkedList.Chain.{mem, last_of, first_or}
use ccore.LinkedList.Ring.{IsRing, IsList, nodes}
use ccore.LinkedList.Remove.{
  IsCut, IsBetween, remove-IsCut, remove_first-IsCut, remove_last-IsCut, ring-IsBetween, cut-IsRing,
  cut_elsewhere,
}

-- A removal took the contents from `os` to `rest`, counted one less, and kept all links outside.
pub record IsRemoved (s s' : Lists) (os rest : List Ptr) : Type 0 where
  pub holds : IsList s' rest
  pub handle : s'.list ≡ shrunk s.list
  pub elsewhere :
      (a : Ptr)
      → mem a (s.list.head ∷ nodes s.list os) ≡ false
      → (next_at s'.mem a ≡ next_at s.mem a) × (prev_at s'.mem a ≡ prev_at s.mem a)

module _ (s : Lists) (object : Ptr) (xs ys : List Ptr) (is : IsList s (xs ++ object ∷ ys)) where
  split-IsRing :
      IsRing s.mem s.list.head (nodes s.list xs ++ get_node s.list object ∷ nodes s.list ys)
  split-IsRing =
      subst (IsRing s.mem s.list.head) (map-append (get_node s.list) xs (object ∷ ys)) is.ring

  between :
      IsBetween s.mem
        (get_node s.list object)
        (last_of s.list.head (nodes s.list xs))
        (first_or s.list.head (nodes s.list ys))
  between =
      ring-IsBetween s.mem (get_node s.list object) s.list.head (nodes s.list xs) (nodes s.list ys)
        split-IsRing

  removed :
      (m' : Mem)
      → IsCut s.mem m'
          (get_node s.list object)
          (last_of s.list.head (nodes s.list xs))
          (first_or s.list.head (nodes s.list ys))
      → IsRemoved s (record { mem = m'; list = shrunk s.list }) (xs ++ object ∷ ys) (xs ++ ys)
  unfolding shrunk get_node
  removed m' cut =
      let h = s.list.head in
      let node = get_node s.list in
      record {
        holds = record {
          ring =
              subst (IsRing m' h) (sym (map-append node xs ys))
                (cut-IsRing s.mem (node object) h (map node xs) (map node ys) split-IsRing m' cut);
          counted = omega (arith, is.counted, length-append xs ys, length-append xs (object ∷ ys));
        };
        handle = refl;
        elsewhere = λ a out.
            cut_elsewhere s.mem (node object) h (map node xs) (map node ys) split-IsRing m' cut a
              (subst (λ l. mem a (h ∷ l) ≡ false) (map-append node xs (object ∷ ys)) out);
      }

  -- `cclist_remove` at an item of the list: no fault, the rest keeps its order, the size is one
  -- less, both links of the item are `NULL`, and no link outside the list changes.
  pub remove_lem :
      (build : Build)
      → object ≢ null
      → Returns (remove build s object) (λ s'.
        IsRemoved s s' (xs ++ object ∷ ys) (xs ++ ys)
        × (next_at s'.mem (get_node s.list object) ≡ some null)
        × (prev_at s'.mem (get_node s.list object) ≡ some null))
  remove_lem build ne =
      let ((m', run, cut), next_null, prev_null) =
        remove-IsCut s (last_of s.list.head (nodes s.list xs))
          (first_or s.list.head (nodes s.list ys)) build object ne between in
      (record { mem = m'; list = shrunk s.list }, run, (removed m' cut, next_null, prev_null))

sized :
    (s : Lists) (os : List Ptr)
    → IsList s os
    → 0 < length os
    → length os < size_mod
    → (s.list.size == 0) ≡ false
sized s os is some_item bound = ground (arith, is.counted)

module _ (s : Lists) (object : Ptr) (os : List Ptr) where
  -- `cclist_remove_first` on a list with items, fewer than `2^64`: the first one leaves, and its
  -- own links stay as they were.
  pub remove_first-cons :
      IsList s (object ∷ os)
      → length (object ∷ os) < size_mod
      → Returns (remove_first s) (λ s'.
        IsRemoved s s' (object ∷ os) os
        × (next_at s'.mem (get_node s.list object) ≡ next_at s.mem (get_node s.list object))
        × (prev_at s'.mem (get_node s.list object) ≡ prev_at s.mem (get_node s.list object)))
  remove_first-cons is bound =
      let ((m', run, cut), next_same, prev_same) =
        remove_first-IsCut s (get_node s.list object) (sized s (object ∷ os) is (omega arith) bound)
          (first_or s.list.head (nodes s.list os)) (between s object [] os is) in
      (
        record { mem = m'; list = shrunk s.list },
        run,
        (removed s object [] os is m' cut, next_same, prev_same),
      )

  -- `cclist_remove_last` on a list with items, fewer than `2^64`: the last one leaves, and its own
  -- links stay as they were.
  pub remove_last-append :
      IsList s (os ++ object ∷ [])
      → length (os ++ object ∷ []) < size_mod
      → Returns (remove_last s) (λ s'.
        IsRemoved s s' (os ++ object ∷ []) os
        × (next_at s'.mem (get_node s.list object) ≡ next_at s.mem (get_node s.list object))
        × (prev_at s'.mem (get_node s.list object) ≡ prev_at s.mem (get_node s.list object)))
  remove_last-append is bound =
      let ((m', run, cut), next_same, prev_same) =
        remove_last-IsCut s (get_node s.list object)
          (sized s (os ++ object ∷ []) is (omega (arith, length-append os (object ∷ []))) bound)
          (last_of s.list.head (nodes s.list os)) (between s object os [] is) in
      let s' : Lists = record { mem = m'; list = shrunk s.list } in
      (
        s',
        run,
        (
          subst (λ l. IsRemoved s s' (os ++ object ∷ []) l) (append-nil os)
              (removed s object os [] is m' cut),
          next_same,
          prev_same,
        ),
      )

-- Both calls leave an empty list alone.
pub remove_empty : (s : Lists) → IsList s [] → (remove_first s ≡ ok s) × (remove_last s ≡ ok s)
unfolding remove_first remove_last
remove_empty s is = (ground (arith, is.counted), ground (arith, is.counted))
