-- ===== src/LinkedList/Walk.antt =====
-- `cclist_first`, `_last`, `_next` and `_prev`, and the walks that clients of the list make.
use mathlib.Core.List.{head?, reverse, map-append}
use mathlib.Core.Path.{subst}
use ccore.Base.{◌≡◌, sym, ◌∙◌, ap, false, List, [], ◌∷◌, ◌++◌, map, arith, map-reverse}
use ccore.Base.Outcome.{ok}
use ccore.LinkedList.{CcList, Lists, get_node, get_ptr, object_at, first, last, next, prev}
use ccore.LinkedList.Memory.{Ptr, next_at, prev_at, load-next_at, load-prev_at}
use ccore.LinkedList.Chain.{
  mem, last_of, first_or, Chain, mem-append, mem-reverse, Chain-link, first_or-reverse,
}
use ccore.LinkedList.Remove.{ring-IsBetween}
use ccore.LinkedList.Ring.{IsRing, IsList, nodes}

-- The first node of a list, or its head, is read back as the first object, or `NULL`.
object_at-first_or :
    (l : CcList) (os : List Ptr)
    → mem l.head (nodes l os) ≡ false
    → object_at l (first_or l.head (nodes l os)) ≡ head? os
unfolding object_at get_ptr get_node
object_at-first_or l [] out = ground arith
object_at-first_or l (o ∷ os) out = ground arith

module _ (s : Lists) where
  -- `cclist_first` returns the first object, or `NULL` on an empty list; `cclist_last` the last.
  first-last_ends :
      (os : List Ptr) → IsList s os → (first s ≡ ok (head? os)) × (last s ≡ ok (head? (reverse os)))
  unfolding first last
  first-last_ends os is =
      let h = s.list.head in
      let (a, l₁, a-next) =
        load-next_at s.mem h (first_or h (nodes s.list os))
          (Chain-link (next_at s.mem) h h [] (nodes s.list os) is.ring.forward) in
      let mirrored = map-reverse (get_node s.list) os in
      let (b, l₂, b-prev) = load-prev_at s.mem h (first_or h (nodes s.list (reverse os))) (
        Chain-link (prev_at s.mem) h h [] (nodes s.list (reverse os))
          (subst (λ l. Chain (prev_at s.mem) h l h) (sym mirrored) is.ring.backward)) in
      let out = is.ring.distinct.0 in
      (
        rw (l₁, a-next) (ap ok (object_at-first_or s.list os out)),
        rw (l₂, b-prev)
            (ap ok (
              object_at-first_or s.list (reverse os)
                (ap (mem h) mirrored ∙ mem-reverse h (nodes s.list os) ∙ out))),
      )

  -- At an object of the list `cclist_next` returns the object behind it and `cclist_prev` the one
  -- before it, or `NULL` where there is none.
  next_prev_neighbours :
      (object : Ptr) (xs ys : List Ptr)
      → IsList s (xs ++ object ∷ ys)
      → (next s object ≡ ok (head? ys)) × (prev s object ≡ ok (head? (reverse xs)))
  unfolding next prev
  next_prev_neighbours object xs ys is =
      let h = s.list.head in
      let node = get_node s.list in
      let ring = subst (IsRing s.mem h) (map-append node xs (object ∷ ys)) is.ring in
      let between = ring-IsBetween s.mem (node object) h (map node xs) (map node ys) ring in
      let (a, l₁, a-next) =
        load-next_at s.mem (node object) (first_or h (map node ys)) between.next in
      let (b, l₂, b-prev) =
        load-prev_at s.mem (node object) (last_of h (map node xs)) between.prev in
      let mirrored = map-reverse node xs in
      let first_prev : last_of h (map node xs) ≡ first_or h (nodes s.list (reverse xs)) =
        sym (first_or-reverse h (map node xs)) ∙ ap (first_or h) (sym mirrored) in
      let out = mem-append h (map node xs) (map node (object ∷ ys)) in
      (
        rw (l₁, a-next)
            (ap ok (object_at-first_or s.list ys (ground (arith, out, ring.distinct.0)))),
        rw (l₂, b-prev, first_prev)
            (ap ok (
              object_at-first_or s.list (reverse xs) (
                ap (mem h) mirrored
                ∙ mem-reverse h (map node xs)
                ∙ ground (arith, out, ring.distinct.0)))),
      )
