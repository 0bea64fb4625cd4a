-- ===== src/LinkedList/Insert/Sequence.antt =====
-- The insertions on the sequence of objects that a list stands for.
use mathlib.Core.List.{append_assoc, append-nil, map-append}
use mathlib.Core.Path.{subst, subst₂}
use ccore.Base.{
  ◌≡◌, refl, sym, ◌∙◌, ap, ◌≢◌, false, some, List, [], ◌∷◌, ◌++◌, map, arith, length-append,
}
use ccore.Base.Outcome.{Build, Returns}
use ccore.LinkedList.{
  Lists, get_node, grown, do_insert_after, do_insert_before, insert_first, insert_last,
  insert_after, insert_before,
}
use ccore.LinkedList.Memory.{assert_ne, Ptr, Mem, null, next_at, prev_at}
use ccore.LinkedList.Chain.{mem, last_of, first_or, last_of-append}
use ccore.LinkedList.Ring.{IsRing, IsList, nodes}
use ccore.LinkedList.Insert.{
  IsSpliced, splice-IsRing, splice_elsewhere, ring_insert_after, ring_insert_before,
}

-- The object has a node, which is not one of the list's.
pub record IsFree (s : Lists) (os : List Ptr) (object : Ptr) : Type 0 where
  pub link : Ptr
  pub linked : next_at s.mem (get_node s.list object) ≡ some link
  pub apart : mem (get_node s.list object) (s.list.head ∷ nodes s.list os) ≡ false

-- An insertion gave the list the contents `os`, counted one more, and kept all links outside it.
pub record IsInserted (s s' : Lists) (os : List Ptr) : Type 0 where
  pub holds : IsList s' os
  pub handle : s'.list ≡ grown s.list
  pub elsewhere :
      (a : Ptr)
      → mem a (s.list.head ∷ nodes s.list os) ≡ false
      → (next_at s'.mem a ≡ next_at s.mem a) × (prev_at s'.mem a ≡ prev_at s.mem a)

module _ (s : Lists) (object : Ptr) (xs ys : List Ptr) where
  inserted :
      (m' : Mem)
      → IsList s (xs ++ ys)
      → IsFree s (xs ++ ys) object
      → IsSpliced s.mem m'
          (get_node s.list object)
          (last_of s.list.head (nodes s.list xs))
          (first_or s.list.head (nodes s.list ys))
      → IsInserted s (record { mem = m'; list = grown s.list }) (xs ++ object ∷ ys)
  unfolding grown get_node
  inserted m' is free to =
      let h = s.list.head in
      let node = get_node s.list in
      let split = map-append node xs ys in
      let ring =
        splice-IsRing s.mem m' (node object) h (map node xs) (map node ys)
          (subst (IsRing s.mem h) split is.ring)
          (subst (λ l. mem (node object) (h ∷ l) ≡ false) split free.apart) to in
      record {
        holds = record {
          ring = subst (IsRing m' h) (sym (map-append node xs (object ∷ ys))) ring;
          counted = omega (arith, is.counted, length-append xs ys, length-append xs (object ∷ ys));
        };
        handle = refl;
        elsewhere = λ a out.
            splice_elsewhere s.mem m' (node object) h (map node xs) (map node ys) to a
              (subst (λ l. mem a (h ∷ l) ≡ false) (map-append node xs (object ∷ ys)) out);
      }

  module _ (is : IsList s (xs ++ ys)) (free : IsFree s (xs ++ ys) object) where
    split-IsRing : IsRing s.mem s.list.head (nodes s.list xs ++ nodes s.list ys)
    split-IsRing = subst (IsRing s.mem s.list.head) (map-append (get_node s.list) xs ys) is.ring

    split_apart :
        mem (get_node s.list object) (s.list.head ∷ (nodes s.list xs ++ nodes s.list ys)) ≡ false
    split_apart =
        subst (λ l. mem (get_node s.list object) (s.list.head ∷ l) ≡ false)
          (map-append (get_node s.list) xs ys) free.apart

    insert_behind :
        Returns
          (do_insert_after s object (last_of s.list.head (nodes s.list xs)))
          (λ s'. IsInserted s s' (xs ++ object ∷ ys))
    insert_behind =
        let (m', run, to) =
          ring_insert_after s object (nodes s.list xs) (nodes s.list ys) split-IsRing free.linked
            split_apart in
        (record { mem = m'; list = grown s.list }, run, inserted m' is free to)

    pub insert_ahead :
        Returns
          (do_insert_before s object (first_or s.list.head (nodes s.list ys)))
          (λ s'. IsInserted s s' (xs ++ object ∷ ys))
    insert_ahead =
        let (m', run, to) =
          ring_insert_before s object (nodes s.list xs) (nodes s.list ys) split-IsRing free.linked
            split_apart in
        (record { mem = m'; list = grown s.list }, run, inserted m' is free to)

module _ (s : Lists) (object : Ptr) where
  -- `cclist_insert_first` on a well-formed list and an object outside it: no fault, the object
  -- stands in front, the size is one more, and no link outside the list changes.
  pub insert_first-cons :
      (os : List Ptr)
      → IsList s os
      → IsFree s os object
      → Returns (insert_first s object) (λ s'. IsInserted s s' (object ∷ os))
  unfolding insert_first
  insert_first-cons os is free = insert_behind s object [] os is free

  -- `cclist_insert_last`: likewise, with the object at the end.
  pub insert_last-append :
      (os : List Ptr)
      → IsList s os
      → IsFree s os object
      → Returns (insert_last s object) (λ s'. IsInserted s s' (os ++ object ∷ []))
  unfolding insert_last
  insert_last-append os is free =
      let same = sym (append-nil os) in
      insert_ahead s object os [] (subst (IsList s) same is)
        (subst (λ l. IsFree s l object) same free)

  module _ (build : Build) (item : Ptr) (xs ys : List Ptr) where
    -- `cclist_insert_after` at an item of the list: the object follows the item, on either build.
    pub insert_after-append :
        IsList s (xs ++ item ∷ ys)
        → IsFree s (xs ++ item ∷ ys) object
        → item ≢ null
        → Returns
            (insert_after build s object item)
            (λ s'. IsInserted s s' (xs ++ item ∷ object ∷ ys))
    unfolding insert_after
    insert_after-append is free ne =
        let l = s.list in
        let shift = λ (zs : List Ptr). append_assoc xs (item ∷ []) zs in
        let at : last_of l.head (nodes l (xs ++ item ∷ [])) ≡ get_node l item =
          ap (last_of l.head) (map-append (get_node l) xs (item ∷ []))
          ∙ last_of-append l.head (get_node l item) (nodes l xs) [] in
        rw (assert_ne build item ne) (
          subst₂ (λ node zs. Returns (do_insert_after s object node) (λ s'. IsInserted s s' zs)) at
            (shift (object ∷ ys))
            (insert_behind s object (xs ++ item ∷ []) ys (subst (IsList s) (sym (shift ys)) is)
              (subst (λ zs. IsFree s zs object) (sym (shift ys)) free)))

    -- `cclist_insert_before` at an item of the list: the object precedes the item, on either build.
    pub insert_before-append :
        IsList s (xs ++ item ∷ ys)
        → IsFree s (xs ++ item ∷ ys) object
        → item ≢ null
        → Returns
            (insert_before build s object item)
            (λ s'. IsInserted s s' (xs ++ object ∷ item ∷ ys))
    unfolding insert_before
    insert_before-append is free ne =
        rw (assert_ne build item ne) (insert_ahead s object xs (item ∷ ys) is free)
