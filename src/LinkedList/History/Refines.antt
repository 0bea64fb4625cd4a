-- ===== src/LinkedList/History/Refines.antt =====
-- src/list.c: sequences of calls, compared with what they do to a plain sequence of objects.
use mathlib.Core.List.{append-nil}
use mathlib.Core.Path.{subst}
use ccore.Base.{
  ℕ, ◌+◌, ◌<◌, ◌≡◌, refl, sym, ap, ◌∙◌, inl, inr, true, false, some, List, [], ◌∷◌, ◌++◌, ◌==◌,
  ==_iff, length, arith, Bool-cases,
}
use ccore.Base.Outcome.{Build, Returns}
use ccore.Base.Words.{size_mod}
use ccore.LinkedList.{Lists, get_node}
use ccore.LinkedList.Memory.{Ptr, next_at}
use ccore.LinkedList.Chain.{mem, mem-append, Chain-defined}
use ccore.LinkedList.Ring.{IsList, nodes}
use ccore.LinkedList.Insert.Sequence.{
  IsFree, insert_first-cons, insert_last-append, insert_after-append, insert_before-append,
}
use ccore.LinkedList.Remove.Sequence.{
  IsRemoved, remove_lem, remove_first-cons, remove_last-append, remove_empty,
}
use ccore.LinkedList.History.{
  Call, put_first, put_last, put_after, put_before, take_out, take_first, take_last, call, calls,
  replace, without_last, effect, effects, Allowed, AllAllowed,
}
use ccore.LinkedList.History.Kept.{
  Kept, IsAt, Kept-IsAt, IsInserted-Kept, IsRemoved-Kept, IsAt-IsFree, mem-nodes,
}

-- Where an item is, and what replacing it there gives.
record IsSplit (item : Ptr) (os : List Ptr) : Type 0 where
  front : List Ptr
  back : List Ptr
  at : os ≡ front ++ item ∷ back
  replaced : (by : List Ptr) → replace item by os ≡ front ++ (by ++ back)

split_at : (item : Ptr) (os : List Ptr) → mem item os ≡ true → IsSplit item os
split_at item [] m = cc
split_at item (o ∷ os) m = elim (Bool-cases (o == item)) [
  | inl here ↦ record {
    front = [];
    back = os;
    at = ap (λ p. p ∷ os) ((==_iff o item).0 here);
    replaced = λ by. rw here refl;
  }
  | inr away ↦
      let later = split_at item os (ground arith) in
      record {
        front = o ∷ later.front;
        back = later.back;
        at = ap (λ l. o ∷ l) later.at;
        replaced = λ by. rw away (ap (λ l. o ∷ l) (later.replaced by));
      }
]

-- The last object, and what is left without it.
last_split :
    (o : Ptr) (os : List Ptr)
    → (front : List Ptr) × (p : Ptr) × (o ∷ os ≡ front ++ p ∷ []) × (without_last (o ∷ os) ≡ front)
last_split o [] = ([], o, refl, refl)
last_split o (p ∷ os) =
    let (front, q, at, rest) = last_split p os in
    (o ∷ front, q, ap (λ l. o ∷ l) at, ap (λ l. o ∷ l) rest)

Kept-refl : {s : Lists} {os : List Ptr} → IsList s os → Kept s s os
Kept-refl is = record {
  holds = is;
  head_eq = refl;
  offset_eq = refl;
  linked = λ a q outside at. (q, at);
}

module _ (build : Build) (pool : List Ptr) (head offset : ℕ)
    (apart : (o : Ptr) → mem o pool ≡ true → (o + offset == head) ≡ false) where
  link_of :
      {s : Lists} {os : List Ptr} (o : Ptr)
      → IsList s os
      → mem (get_node s.list o) (s.list.head ∷ nodes s.list os) ≡ true
      → (q : Ptr) × (next_at s.mem (get_node s.list o) ≡ some q)
  link_of {s} {os} o is m =
      Chain-defined (next_at s.mem) (get_node s.list o) s.list.head s.list.head (nodes s.list os)
        is.ring.forward m

  call-Kept :
      (s : Lists) (os : List Ptr) (c : Call)
      → IsAt pool head offset s os
      → Allowed pool c os
      → Returns (call build s c) (λ s'. Kept s s' (effect c os))
  unfolding call
  call-Kept s os (put_first object) is (known, new) =
      let free = IsAt-IsFree object is known new (apart object known) in
      let (s', run, done) = insert_first-cons s object os is.holds free in
      (s', run, IsInserted-Kept done)
  call-Kept s os (put_last object) is (known, new) =
      let free = IsAt-IsFree object is known new (apart object known) in
      let (s', run, done) = insert_last-append s object os is.holds free in
      (s', run, IsInserted-Kept done)
  call-Kept s os (put_after object item) is ((known, new), there, ne) =
      let split = split_at item os there in
      let free = IsAt-IsFree object is known new (apart object known) in
      let (s', run, done) =
        insert_after-append s object build item split.front split.back
          (subst (IsList s) split.at is.holds) (subst (λ l. IsFree s l object) split.at free) ne in
      (
        s',
        run,
        subst (Kept s s') (sym (split.replaced (item ∷ object ∷ []))) (IsInserted-Kept done),
      )
  call-Kept s os (put_before object item) is ((known, new), there, ne) =
      let split = split_at item os there in
      let free = IsAt-IsFree object is known new (apart object known) in
      let (s', run, done) =
        insert_before-append s object build item split.front split.back
          (subst (IsList s) split.at is.holds) (subst (λ l. IsFree s l object) split.at free) ne in
      (
        s',
        run,
        subst (Kept s s') (sym (split.replaced (object ∷ item ∷ []))) (IsInserted-Kept done),
      )
  call-Kept s os (take_out object) is (there, ne) =
      let split = split_at object os there in
      let (s', run, (done, freed, prev_freed)) =
        remove_lem s object split.front split.back (subst (IsList s) split.at is.holds) build ne in
      (
        s',
        run,
        subst (Kept s s') (sym (split.replaced []))
            (IsRemoved-Kept split.front object split.back done freed),
      )
  call-Kept s [] take_first is short = (s, (remove_empty s is.holds).0, Kept-refl is.holds)
  call-Kept s (o ∷ os) take_first is short =
      let (s', run, (done, same, prev_same)) = remove_first-cons s o os is.holds short in
      let (q, at) = link_of o is.holds (ground arith) in
      (s', run, IsRemoved-Kept [] o os done (same ∙ at))
  call-Kept s [] take_last is short = (s, (remove_empty s is.holds).1, Kept-refl is.holds)
  call-Kept s (o ∷ os) take_last is short =
      let (front, p, at, rest) = last_split o os in
      let holds = subst (IsList s) at is.holds in
      let (s', run, (done, same, prev_same)) =
        remove_last-append s p front holds (subst (λ l. length l < size_mod) at short) in
      let (q, link) =
        link_of p holds
          (ground (arith, mem-nodes s.list p (front ++ p ∷ []), mem-append p front (p ∷ []))) in
      let whole = sym (append-nil front) in
      (
        s',
        run,
        subst (Kept s s') (append-nil front ∙ sym rest) (
            IsRemoved-Kept front p [] (subst (IsRemoved s s' (front ++ p ∷ [])) whole done)
              (same ∙ link)),
      )

  -- Any sequence of calls of the insertions and removals, with new objects of a pool whose nodes are
  -- apart from the head, items that are in the list and not NULL, and fewer than `2^64` objects where
  -- an end is removed: on either build no call faults or aborts,
  -- and the list then holds what the same calls make of a plain sequence of objects.
  pub calls-effects :
      (cs : List Call) (s : Lists) (os : List Ptr)
      → IsAt pool head offset s os
      → AllAllowed pool cs os
      → Returns (calls build s cs) (λ s'. IsAt pool head offset s' (effects cs os))
  unfolding calls
  calls-effects [] s os is allowed = (s, refl, is)
  calls-effects (c ∷ cs) s os is (now, later) =
      let (s', run, kept) = call-Kept s os c is now in
      let (s'', runs, at) = calls-effects cs s' (effect c os) (Kept-IsAt is kept) later in
      (s'', rw run runs, at)
