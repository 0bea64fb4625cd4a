-- ===== src/LinkedList/InsertAt.antt =====
-- `cclist_insert_at`: the walk to the n-th item, and what the assertion behind it does to callers.
use mathlib.Core.Path.{subst, subst₂}
use ccore.Base.{
  ℕ, zero, suc, ◌-◌, ◌<◌, ◌≡◌, sym, ◌≢◌, true, false, List, [], ◌∷◌, ◌++◌, arith, ◌==◌,
  if◌then◌else◌, ltb, length, take, drop, ==_refl, drop_nil, take-append-drop, take_all, drop_all,
  map-drop, length-map,
}
use ccore.Base.Outcome.{Build, debug, release, ok, aborted, ◌>>=◌, Returns, assert}
use ccore.Base.Words.{size_mod}
use ccore.LinkedList.{Lists, get_node, nth_loop, nth_item, insert_at, do_insert_before}
use ccore.LinkedList.Memory.{Ptr, Mem, next_at, load-next_at}
use ccore.LinkedList.Chain.{mem, first_or, Trail, Trail-tail, Chain-link}
use ccore.LinkedList.Ring.{IsList, nodes}
use ccore.LinkedList.Insert.Sequence.{IsFree, IsInserted, insert_ahead}

-- The counter that the walk leaves: wrapped round where the walk stopped because it was 0.
pub left_over : ℕ → ℕ → ℕ
left_over n len = if ltb n len then size_mod - 1 else n - len

-- The walk from the first of the nodes `ns`, whose chain ends in the head.
nth_loop-drop :
    (m : Mem) (h : Ptr) (fuel n : ℕ) (ns : List Ptr)
    → length ns < fuel
    → mem h ns ≡ false
    → Trail (next_at m) h ns
    → nth_loop fuel m h (first_or h ns) n ≡ ok (first_or h (drop n ns), left_over n (length ns))
unfolding nth_loop left_over
nth_loop-drop m h zero n ns room out trail = absurd (omega arith)
nth_loop-drop m h (suc fuel) n [] room out trail = rw (==_refl h, drop_nil) (ground arith)
nth_loop-drop m h (suc fuel) zero (x ∷ ns) room out trail = ground arith
nth_loop-drop m h (suc fuel) (suc n) (x ∷ ns) room out trail =
    let (a, l, a-next) =
      load-next_at m x (first_or h ns) (Chain-link (next_at m) x h [] ns trail) in
    let away : (x == h) ≡ false = ground arith in
    let here : (suc n == 0) ≡ false = ground arith in
    let rest =
      nth_loop-drop m h fuel n ns (omega arith) (ground arith)
        (Trail-tail (next_at m) h x ns trail) in
    let down : suc n - 1 ≡ n = omega arith in rw (away, here, l, a-next, down, rest) (ground arith)

module _ (fuel : ℕ) (s : Lists) (object : Ptr) (n : ℕ) (os : List Ptr) where
  nth_item-drop :
      (build : Build)
      → IsList s os
      → length os < fuel
      → nth_item build fuel s n ≡ (
          assert build (left_over n (length os) == 0) >>= λ _.
          ok (first_or s.list.head (nodes s.list (drop n os))))
  unfolding nth_item
  nth_item-drop build is room =
      let h = s.list.head in
      let (a, l, a-next) =
        load-next_at s.mem h (first_or h (nodes s.list os))
          (Chain-link (next_at s.mem) h h [] (nodes s.list os) is.ring.forward) in
      let walk =
        nth_loop-drop s.mem h fuel n (nodes s.list os) (rw (length-map os (get_node s.list)) room)
          is.ring.distinct.0 (Trail-tail (next_at s.mem) h h (nodes s.list os) is.ring.forward) in
      rw (l, a-next, walk, map-drop, length-map os (get_node s.list))

  at_place :
      IsList s os
      → IsFree s os object
      → Returns
          (do_insert_before s object (first_or s.list.head (nodes s.list (drop n os))))
          (λ s'. IsInserted s s' (take n os ++ object ∷ drop n os))
  at_place is free =
      let same = sym (take-append-drop n os) in
      insert_ahead s object (take n os) (drop n os) (subst (IsList s) same is)
        (subst (λ l. IsFree s l object) same free)

  module _ (is : IsList s os) (free : IsFree s os object) (room : length os < fuel) where
    -- Without assertions `cclist_insert_at` puts the object at position `n`, or at the end of a
    -- list that is shorter. A walk of one round more than the list is long is enough fuel.
    pub insert_at-release :
        Returns
          (insert_at release fuel s object n)
          (λ s'. IsInserted s s' (take n os ++ object ∷ drop n os))
    unfolding insert_at
    insert_at-release = rw (nth_item-drop release is room) (at_place is free)

    -- With assertions `cclist_insert_at` aborts at every position but the end of the list, those
    -- inside the list included.
    pub insert_at-aborts : n ≢ length os → insert_at debug fuel s object n ≡ aborted
    unfolding insert_at left_over
    insert_at-aborts ne =
        let off : (left_over n (length os) == 0) ≡ false = ground arith in
        rw (nth_item-drop debug is room, off)

    -- With assertions `cclist_insert_at` at the end of the list puts the object there.
    pub insert_at-append :
        n ≡ length os
        → Returns (insert_at debug fuel s object n) (λ s'. IsInserted s s' (os ++ object ∷ []))
    unfolding insert_at left_over
    insert_at-append e =
        let on : (left_over n (length os) == 0) ≡ true = ground arith in
        let full : take n os ≡ os = rw e (take_all os) in
        let empty : drop n os ≡ [] = rw e (drop_all os) in
        rw (nth_item-drop debug is room, on)
          (subst₂
            (λ xs ys.
              Returns (do_insert_before s object (first_or s.list.head (nodes s.list (drop n os))))
                (λ s'. IsInserted s s' (xs ++ object ∷ ys)))
            full empty (at_place is free))
