-- ===== src/LinkedList/History/Kept.antt =====
-- What every call keeps: the nodes of all objects, and where the list is.
use ccore.Base.{
  ℕ, ◌+◌, ◌≡◌, refl, ap, ◌∙◌, inl, inr, true, false, some, List, [], ◌∷◌, ◌++◌, ◌==◌, ==_iff, map,
  arith, Bool-cases,
}
use ccore.LinkedList.{CcList, Lists, get_node, grown, shrunk}
use ccore.LinkedList.Memory.{Ptr, next_at}
use ccore.LinkedList.Chain.{mem, Chain-defined}
use ccore.LinkedList.Ring.{IsList, nodes}
use ccore.LinkedList.Insert.Sequence.{IsFree, IsInserted}
use ccore.LinkedList.Remove.Sequence.{IsRemoved}

pub record Kept (s s' : Lists) (os : List Ptr) : Type 0 where
  pub holds : IsList s' os
  pub head_eq : s'.list.head ≡ s.list.head
  pub offset_eq : s'.list.offset ≡ s.list.offset
  pub linked :
      (a q : Ptr)
      → mem a (s.list.head ∷ nodes s.list os) ≡ false
      → next_at s.mem a ≡ some q
      → (r : Ptr) × (next_at s'.mem a ≡ some r)

-- A list at `head`, with the objects `os`, in a memory where each object of `pool` has a node.
pub record IsAt (pool : List Ptr) (head offset : ℕ) (s : Lists) (os : List Ptr) : Type 0 where
  pub holds : IsList s os
  pub head_eq : s.list.head ≡ head
  pub offset_eq : s.list.offset ≡ offset
  pub homes : (o : Ptr) → mem o pool ≡ true → (q : Ptr) × (next_at s.mem (o + offset) ≡ some q)

nodes_by_offset : (l k : CcList) (os : List Ptr) → l.offset ≡ k.offset → nodes l os ≡ nodes k os
unfolding get_node
nodes_by_offset l k os same = ap (λ d. map (λ p. p + d) os) same

pub Kept-IsAt :
    {pool : List Ptr} {head offset : ℕ} {s s' : Lists} {os os' : List Ptr}
    → IsAt pool head offset s os
    → Kept s s' os'
    → IsAt pool head offset s' os'
Kept-IsAt {pool} {head} {offset} {s} {s'} {os} {os'} is kept = record {
  holds = kept.holds;
  head_eq = kept.head_eq ∙ is.head_eq;
  offset_eq = kept.offset_eq ∙ is.offset_eq;
  homes = λ o m.
      let a = o + offset in
      elim (Bool-cases (mem a (s.list.head ∷ nodes s.list os'))) [
        | inl within ↦
            Chain-defined (next_at s'.mem) a s'.list.head s'.list.head (nodes s'.list os')
              kept.holds.ring.forward
              (ap (λ h. mem a (h ∷ nodes s'.list os')) kept.head_eq
                ∙ ap (λ l. mem a (s.list.head ∷ l))
                    (nodes_by_offset s'.list s.list os' kept.offset_eq)
                ∙ within)
        | inr outside ↦ let (q, at) = is.homes o m in kept.linked a q outside at
      ];
}

pub IsInserted-Kept : {s s' : Lists} {os : List Ptr} → IsInserted s s' os → Kept s s' os
unfolding grown
IsInserted-Kept is = record {
  holds = is.holds;
  head_eq = ap (λ l. l.head) is.handle;
  offset_eq = ap (λ l. l.offset) is.handle;
  linked = λ a q outside at. (q, (is.elsewhere a outside).0 ∙ at);
}

outside_too :
    (l : CcList) (a : Ptr) (xs : List Ptr) (o : Ptr) (ys : List Ptr)
    → (a == get_node l o) ≡ false
    → mem a (nodes l (xs ++ ys)) ≡ false
    → mem a (nodes l (xs ++ o ∷ ys)) ≡ false
outside_too l a [] o ys ne out = ground arith
outside_too l a (x ∷ xs) o ys ne out = ground (arith, outside_too l a xs o ys ne)

-- A removal, of which it is known that the removed object still has a link.
pub IsRemoved-Kept :
    {s s' : Lists} (xs : List Ptr) (o : Ptr) (ys : List Ptr) {r : Ptr}
    → IsRemoved s s' (xs ++ o ∷ ys) (xs ++ ys)
    → next_at s'.mem (get_node s.list o) ≡ some r
    → Kept s s' (xs ++ ys)
unfolding shrunk
IsRemoved-Kept {s} {s'} xs o ys {r} is free = record {
  holds = is.holds;
  head_eq = ap (λ l. l.head) is.handle;
  offset_eq = ap (λ l. l.offset) is.handle;
  linked = λ a q outside at. elim (Bool-cases (a == get_node s.list o)) [
    | inl here ↦ (r, ap (next_at s'.mem) ((==_iff a (get_node s.list o)).0 here) ∙ free)
    | inr away ↦
        let out : mem a (s.list.head ∷ nodes s.list (xs ++ o ∷ ys)) ≡ false =
          ground (arith, outside_too s.list a xs o ys away) in
        (q, (is.elsewhere a out).0 ∙ at)
  ];
}

pub mem-nodes : (l : CcList) (o : Ptr) (os : List Ptr) → mem (get_node l o) (nodes l os) ≡ mem o os
unfolding get_node
mem-nodes l o [] = refl
mem-nodes l o (x ∷ os) = ground (arith, mem-nodes l o os)

-- An object that is not in the list and whose node is not the head can be put into it.
pub IsAt-IsFree :
    {pool : List Ptr} {head offset : ℕ} {s : Lists} {os : List Ptr} (o : Ptr)
    → IsAt pool head offset s os
    → mem o pool ≡ true
    → mem o os ≡ false
    → (o + offset == head) ≡ false
    → IsFree s os o
unfolding get_node
IsAt-IsFree {s = s} {os = os} o is known absent apart =
    let (q, at) = is.homes o known in
    record {
      link = q;
      linked = ap (λ d. next_at s.mem (o + d)) is.offset_eq ∙ at;
      apart = ground (arith, mem-nodes s.list o os);
    }
