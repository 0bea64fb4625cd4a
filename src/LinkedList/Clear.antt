-- ===== src/LinkedList/Clear.antt =====
-- `cclist_init` and `cclist_clear` with a destructor.
use mathlib.Core.List.{foldl}
use ccore.Base.{
  ℕ, zero, suc, ◌<◌, ◌≡◌, refl, ◌∙◌, ap, inl, inr, ◌||◌, Bool, true, false, Option, some, List, [],
  ◌∷◌, arith, ◌==◌, Bool-cases, length, ==_refl,
}
use ccore.Base.Outcome.{Returns}
use ccore.LinkedList.{
  CcList, Lists, get_node, get_ptr, init, Destructor, destroy, clear_loop, clear,
}
use ccore.LinkedList.Memory.{
  Ptr, Mem, next_at, prev_at, load-next_at, set_next-next_at, set_prev-prev_at, next_at_congr,
  prev_at_congr,
}
use ccore.LinkedList.Chain.{mem, IsNodup, first_or, Trail, Trail-tail, Trail-congr, Chain-link}
use ccore.LinkedList.Ring.{IsList, nodes}

-- `cclist_init` makes the list empty, whatever it held, and writes the head's links only.
init-IsList :
    (s : Lists) (offset : ℕ) {r : Ptr}
    → next_at s.mem s.list.head ≡ some r
    → Returns (init s offset) λ s'.
      IsList s' []
      × (s'.list ≡ record { size = 0; head = s.list.head; offset = offset })
      × ((a : Ptr)
          → (s.list.head == a) ≡ false
          → (next_at s'.mem a ≡ next_at s.mem a) × (prev_at s'.mem a ≡ prev_at s.mem a))
unfolding init
init-IsList s offset at_head =
    let h = s.list.head in
    let (m₁, e₁, (n₁, p₁)) = set_next-next_at s.mem h h at_head in
    let next₁ : next_at m₁ h ≡ some h = ground (arith, n₁ h) in
    let (m₂, e₂, (p₂, n₂)) = set_prev-prev_at m₁ h h next₁ in
    (
      record { mem = m₂; list = record { size = 0; head = h; offset = offset } },
      rw (e₁, e₂),
      (
        record {
          ring = record {
            forward = n₂ h ∙ next₁;
            backward = ground (arith, p₂ h);
            distinct = (refl, tt);
          };
          counted = refl;
        },
        refl,
        λ a out. (ground (arith, n₂ a, n₁ a), ground (arith, p₂ a, p₁ a)),
      ),
    )

get_ptr-get_node : (l : CcList) (o : Ptr) → get_ptr l (get_node l o) ≡ o
unfolding get_ptr get_node
get_ptr-get_node l o = omega arith

-- What is known of a destructor, whose object owns the nodes at the addresses of `owns object`, its
-- own node with them, and is `ready` in a memory or not: called on an object that is ready it does
-- not fault, changes the user data by `effect`, and changes no node but those that the object owns;
-- and whether an object is ready is a matter of the nodes that it owns. So it may free its object,
-- and clear a list that the object holds.
pub record IsDestructor {U : Type 0} (l : CcList) (d : Option (Destructor U)) (effect : U → Ptr → U)
    (owns : Ptr → Ptr → Bool) (ready : Ptr → Mem → Type 0) : Type 0 where
  pub runs :
      (object : Ptr) (u : U) (m : Mem)
      → ready object m
      → Returns
          (destroy d object u m)
          λ out. (out.0 ≡ effect u object) × ((a : Ptr) → owns object a ≡ false → out.1 a ≡ m a)
  pub node_owned : (object : Ptr) → owns object (get_node l object) ≡ true
  pub ready_local :
      (object : Ptr) (m m' : Mem)
      → ((a : Ptr) → owns object a ≡ true → m' a ≡ m a)
      → ready object m
      → ready object m'

-- Some of the objects owns the address.
abbrev pub any_owns : (Ptr → Ptr → Bool) → List Ptr → Ptr → Bool
any_owns owns [] a = false
any_owns owns (o ∷ os) a = owns o a || any_owns owns os a

-- All objects are ready, none owns the head, and no two own the same address.
abbrev pub AreReady : Ptr → (Ptr → Ptr → Bool) → (Ptr → Mem → Type 0) → Mem → List Ptr → Type 0
AreReady head owns ready m [] = Unit {0}
AreReady head owns ready m (o ∷ os) =
    ready o m
    × (owns o head ≡ false)
    × ((a : Ptr) → owns o a ≡ true → any_owns owns os a ≡ false)
    × AreReady head owns ready m os

module _ {U : Type 0} (l : CcList) (d : Option (Destructor U)) (effect : U → Ptr → U)
    (owns : Ptr → Ptr → Bool) (ready : Ptr → Mem → Type 0) where
  -- Objects that own nothing that has changed are as ready as before.
  AreReady-kept :
      (is : IsDestructor l d effect owns ready) (os : List Ptr) (m m' : Mem)
      → ((a : Ptr) → any_owns owns os a ≡ true → m' a ≡ m a)
      → AreReady l.head owns ready m os
      → AreReady l.head owns ready m' os
  AreReady-kept is [] m m' same r = tt
  AreReady-kept is (o ∷ os) m m' same (at, off, apart, rest) = (
    is.ready_local o m m' (λ a own. same a (ground arith)) at,
    off,
    apart,
    AreReady-kept is os m m' (λ a own. same a (ground arith)) rest,
  )

  -- The node of each object is among what the objects own.
  any_owns-node :
      (is : IsDestructor l d effect owns ready) (os : List Ptr) (a : Ptr)
      → mem a (nodes l os) ≡ true
      → any_owns owns os a ≡ true
  any_owns-node is [] a h = cc
  any_owns-node is (o ∷ os) a h = ground (arith, is.node_owned o, any_owns-node is os a)

  clear_loop-foldl :
      (is : IsDestructor l d effect owns ready) (fuel : ℕ) (os : List Ptr) (u : U) (m : Mem)
      → length os < fuel
      → IsNodup (l.head ∷ nodes l os)
      → Trail (next_at m) l.head (nodes l os)
      → AreReady l.head owns ready m os
      → Returns (clear_loop fuel l d (first_or l.head (nodes l os)) u m) λ out.
        (out.0 ≡ foldl effect u os)
        × ((a : Ptr) → any_owns owns os a ≡ false → out.1 a ≡ m a)
        × (out.1 l.head ≡ m l.head)
  unfolding clear_loop get_ptr
  clear_loop-foldl is zero os u m room apart trail r = absurd (omega arith)
  clear_loop-foldl is (suc fuel) [] u m room apart trail r =
      ((u, m), rw (==_refl l.head), (refl, λ a out. refl, refl))
  clear_loop-foldl is (suc fuel) (o ∷ os) u m room apart trail (at, off, alone, rest) =
      let h = l.head in
      let node = get_node l o in
      let away : (node == h) ≡ false = ground arith in
      let at_node = Chain-link (next_at m) node h [] (nodes l os) trail in
      let (a, e₁, a-next) = load-next_at m node (first_or h (nodes l os)) at_node in
      let ((u', m'), e₂, (did, kept)) = is.runs o u m at in
      let others_kept : (p : Ptr) → any_owns owns os p ≡ true → m' p ≡ m p =
        λ p own. kept p (not_owned o os alone p own) in
      let next_kept : (p : Ptr) → mem p (nodes l os) ≡ true → next_at m' p ≡ next_at m p =
        λ p own. next_at_congr m m' p (others_kept p (any_owns-node is os p own)) in
      let trail' : Trail (next_at m') h (nodes l os) =
        Trail-congr (next_at m) (next_at m') h (nodes l os)
          (Trail-tail (next_at m) h node (nodes l os) trail) next_kept in
      let (out, e₃, (all, same, head_same)) =
        clear_loop-foldl is fuel os u' m' (omega arith) (ground arith, apart.1.1) trail'
          (AreReady-kept is os m m' others_kept rest) in
      let back : get_ptr l node ≡ o = get_ptr-get_node l o in
      (
        out,
        rw (away, e₁, back, e₂, a-next, e₃),
        (
          all ∙ ap (λ v. foldl effect v os) did,
          λ p outside. same p (ground arith) ∙ kept p (ground arith),
          head_same ∙ kept h off,
        ),
      )
    where
      not_owned :
          (o : Ptr) (os : List Ptr)
          → ((a : Ptr) → owns o a ≡ true → any_owns owns os a ≡ false)
          → (p : Ptr) → any_owns owns os p ≡ true
          → owns o p ≡ false
      not_owned o os alone p own = elim (Bool-cases (owns o p)) [
        | inl both ↦ absurd (cc (alone p both))
        | inr only ↦ only
      ]

  module _ (is : IsDestructor l d effect owns ready) where
    -- Assumed is a destructor that, on an object that is ready for it, does not fault, and changes the
    -- user data by a given function and no node but those that the object owns, its own with them;
    -- whether an object is ready depends on these nodes only. Where each object of the list is ready,
    -- and none owns the head or a node that another one owns, `cclist_clear` calls the
    -- destructor once on each object, in order, and each time after it has read the link to the next;
    -- it leaves an empty list, and changes no node but the head and those that the objects own. A loop
    -- of one round more than the list is long is enough fuel.
    pub clear-foldl :
        (fuel : ℕ) (m : Mem) (os : List Ptr) (u : U)
        → IsList (record { mem = m; list = l }) os
        → AreReady l.head owns ready m os
        → length os < fuel
        → Returns (clear fuel (record { mem = m; list = l }) d u) λ out.
          (out.0 ≡ foldl effect u os)
          × IsList out.1 []
          × (out.1.list ≡ record l { size = 0 })
          × ((a : Ptr)
              → (l.head == a) ≡ false
              → any_owns owns os a ≡ false
              → (next_at out.1.mem a ≡ next_at m a) × (prev_at out.1.mem a ≡ prev_at m a))
    unfolding clear
    clear-foldl fuel m os u is_list r room =
        let h = l.head in
        let at_head = Chain-link (next_at m) h h [] (nodes l os) is_list.ring.forward in
        let (a, e₁, a-next) = load-next_at m h (first_or h (nodes l os)) at_head in
        let ((u', m'), e₂, (all, same, head_same)) =
          clear_loop-foldl is fuel os u m room is_list.ring.distinct
            (Trail-tail (next_at m) h h (nodes l os) is_list.ring.forward) r in
        let head_kept = next_at_congr m m' h head_same ∙ at_head in
        let (s', e₃, (empty, handle, elsewhere)) =
          init-IsList (record { mem = m'; list = l }) l.offset head_kept in
        (
          (u', s'),
          rw (e₁, a-next, e₂, e₃),
          (
            all,
            empty,
            handle,
            λ p off outside.
                let (to_next, to_prev) = elsewhere p off in
                let kept = same p outside in
                (to_next ∙ next_at_congr m m' p kept, to_prev ∙ prev_at_congr m m' p kept),
          ),
        )
