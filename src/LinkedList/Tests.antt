-- ===== src/LinkedList/Tests.antt =====
-- Runs of the list code on a list of two objects, and the theorems at such inputs.
use ccore.Base.{
  ◌≡◌, refl, ◌∙◌, Bool, false, Option, none, some, List, [], ◌∷◌, arith, ◌==◌, if◌then◌else◌, ◌+◌,
  true, inl, inr, Bool-cases, ==_iff,
}
use ccore.Base.Outcome.{Outcome, debug, ok, aborted, fault, Returns, release}
use ccore.LinkedList.{
  Lists, Destructor, get_node, insert_at, remove, remove_first, remove_last, destroy, clear,
}
use ccore.LinkedList.Memory.{Ptr, Node, Mem, next_at, prev_at}
use ccore.LinkedList.Chain.{mem}
use ccore.LinkedList.Ring.{IsList}
use ccore.LinkedList.Insert.Sequence.{IsFree}
use ccore.LinkedList.Remove.Sequence.{IsRemoved, remove_lem, remove_empty}
use ccore.LinkedList.History.{
  Call, put_first, put_after, put_before, take_out, take_first, take_last, calls,
}
use ccore.LinkedList.History.Kept.{IsAt}
use ccore.LinkedList.History.Refines.{calls-effects}
use ccore.LinkedList.InsertAt.{insert_at-aborts}
use ccore.LinkedList.Clear.{IsDestructor, any_owns, AreReady, clear-foldl}

abbrev node : Ptr → Ptr → Option Node
node p n = some (record { prev = p; next = n })

-- Objects 10 and 20 are linked to the head at 100; object 30 has a node of its own.
abbrev links : Mem
links a =
    if a == 100
    then node 28 18
    else if a == 18
    then node 100 28
    else if a == 28
    then node 18 100
    else if a == 38
    then node 0 0
    else none

abbrev pair : Lists
pair = record { mem = links; list = record { size = 2; head = 100; offset = 8 } }

pair-IsList : IsList pair (10 ∷ 20 ∷ [])
unfolding get_node next_at prev_at
pair-IsList = record {
  ring = record {
    forward = (refl, (refl, refl));
    backward = (refl, (refl, refl));
    distinct = (refl, (refl, (refl, tt)));
  };
  counted = refl;
}

third-IsFree : IsFree pair (10 ∷ 20 ∷ []) 30
unfolding get_node next_at
third-IsFree = record { link = 0; linked = refl; apart = refl }

insert_at-aborts_example : insert_at debug 3 pair 30 1 ≡ aborted
insert_at-aborts_example =
    insert_at-aborts 3 pair 30 1 (10 ∷ 20 ∷ []) pair-IsList third-IsFree (omega arith) (omega arith)

remove_lem_example : Returns (remove debug pair 10) (λ s'.
    IsRemoved pair s' (10 ∷ 20 ∷ []) (20 ∷ [])
    × (next_at s'.mem (get_node pair.list 10) ≡ some 0)
    × (prev_at s'.mem (get_node pair.list 10) ≡ some 0))
remove_lem_example = remove_lem pair 10 [] (20 ∷ []) pair-IsList debug (omega arith)

-- A list of nothing at 200, whatever its links.
abbrev nothing : Lists
nothing = record {
  mem = λ a. if a == 200 then node 200 200 else none;
  list = record { size = 0; head = 200; offset = 8 };
}

nothing-IsList : IsList nothing []
unfolding next_at prev_at
nothing-IsList = record {
  ring = record { forward = refl; backward = refl; distinct = (refl, tt) };
  counted = refl;
}

empty_left_alone : (remove_first nothing ≡ ok nothing) × (remove_last nothing ≡ ok nothing)
empty_left_alone = remove_empty nothing nothing-IsList

-- A destructor that collects the objects and frees the node of each; without a node it faults.
abbrev freed : Ptr → List Ptr → Mem → Option Node → Outcome (List Ptr × Mem)
freed object u m none = fault
freed object u m (some n) = ok (object ∷ u, λ a. if object + 8 == a then none else m a)

abbrev collect : Option (Destructor (List Ptr))
collect = some (λ object u m. freed object u m (m (object + 8)))

abbrev owns_node : Ptr → Ptr → Bool
owns_node object a = object + 8 == a

abbrev HasNode : Ptr → Mem → Type 0
HasNode object m = (n : Node) × (m (object + 8) ≡ some n)

collect-IsDestructor : IsDestructor pair.list collect (λ u object. object ∷ u) owns_node HasNode
unfolding destroy get_node
collect-IsDestructor = record {
  runs = λ object u m (n, there). (
    (object ∷ u, λ a. if object + 8 == a then none else m a),
    rw there refl,
    (refl, λ a out. rw out refl),
  );
  node_owned = λ object. ground arith;
  ready_local = λ object m m' same (n, there). (n, same (object + 8) (ground arith) ∙ there);
}

owned_apart : (a : Ptr) → owns_node 10 a ≡ true → any_owns owns_node (20 ∷ []) a ≡ false
owned_apart a own = ground arith

pair-AreReady : AreReady 100 owns_node HasNode links (10 ∷ 20 ∷ [])
pair-AreReady = ((_, refl), refl, owned_apart, ((_, refl), refl, λ a own. refl, tt))

clear-foldl_example : Returns (clear 3 pair collect []) λ out.
    (out.0 ≡ 20 ∷ 10 ∷ [])
    × IsList out.1 []
    × (out.1.list ≡ record { size = 0; head = 100; offset = 8 })
    × ((a : Ptr)
        → (◌==◌ 100 a) ≡ false
        → any_owns owns_node (10 ∷ 20 ∷ []) a ≡ false
        → (next_at out.1.mem a ≡ next_at links a) × (prev_at out.1.mem a ≡ prev_at links a))
clear-foldl_example =
    clear-foldl pair.list collect (λ u object. object ∷ u) owns_node HasNode collect-IsDestructor 3
      links (10 ∷ 20 ∷ []) [] pair-IsList pair-AreReady (omega arith)

-- The three objects, and a history of calls.
abbrev objects : List Ptr
objects = 10 ∷ 20 ∷ 30 ∷ []

abbrev history : List Call
history =
    put_first 30 ∷ take_out 10 ∷ put_after 10 20 ∷ take_last ∷ put_before 10 30 ∷ take_first ∷ []

homes : (o : Ptr) → mem o objects ≡ true → (q : Ptr) × (next_at links (o + 8) ≡ some q)
unfolding next_at
homes o m = elim (Bool-cases (o == 10)) [
  | inl ten ↦ (28, rw ((==_iff o 10).0 ten) refl)
  | inr not_ten ↦ elim (Bool-cases (o == 20)) [
    | inl twenty ↦ (100, rw ((==_iff o 20).0 twenty) refl)
    | inr not_twenty ↦ let thirty : o ≡ 30 = ground arith in (0, rw thirty refl)
  ]
]

pair-IsAt : IsAt objects 100 8 pair (10 ∷ 20 ∷ [])
pair-IsAt = record { holds = pair-IsList; head_eq = refl; offset_eq = refl; homes = homes }

apart : (o : Ptr) → mem o objects ≡ true → (o + 8 == 100) ≡ false
apart o m = ground arith

calls-effects_example :
    Returns (calls release pair history) (λ s'. IsAt objects 100 8 s' (30 ∷ 20 ∷ []))
calls-effects_example =
    calls-effects release objects 100 8 apart history pair (10 ∷ 20 ∷ []) pair-IsAt (
      (refl, refl),
      (
        (refl, omega arith),
        (
          ((refl, refl), refl, omega arith),
          (omega arith, (((refl, refl), refl, omega arith), (omega arith, tt))),
        ),
      ),
    )
