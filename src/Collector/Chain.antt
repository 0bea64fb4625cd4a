-- ===== src/Collector/Chain.antt =====
-- The chain of a collector: its objects from the newest to the oldest.
use ccore.Base.{
  ℕ, zero, suc, ◌+◌, ◌%◌, ◌<◌, ◌≤◌, ◌≡◌, ◌≢◌, refl, sym, ap, ◌∙◌, Bool, true, false, not, Option,
  some, List, [], ◌∷◌, ==_refl, ==_ne, ltb, if◌then◌else◌, length, arith,
}
use ccore.Base.Outcome.{Build, debug, release, ok, assert, Returns}
use ccore.Base.Words.{size_mod}
use ccore.Collector.{
  Object, Heap, write, World, object_size, collect_loop, gc_collect, link, gc_new,
}

abbrev pub Fresh : ℕ → List ℕ → Type 0
Fresh p [] = Unit {0}
Fresh p (q ∷ qs) = (p ≢ q) × Fresh p qs

-- From `p` the objects are those of the list, all different, and the last has no next.
abbrev pub IsChain : Heap → ℕ → List ℕ → Type 0
IsChain heap p [] = p ≡ 0
IsChain heap p (q ∷ qs) =
    (p ≡ q) × (q ≢ 0) × Fresh q qs × ((o : Object) × (heap q ≡ some o) × IsChain heap o.next qs)

pub record IsWorld (w : World) (objects : List ℕ) : Type 0 where
  pub chain : IsChain w.heap w.gc.head objects
  pub counted : w.gc.allocated ≡ length objects

pub IsChain-write :
    (heap : Heap) (q : ℕ) (v : Option Object) (p : ℕ) (objects : List ℕ)
    → Fresh q objects
    → IsChain heap p objects
    → IsChain (write heap q v) p objects
IsChain-write heap q v p [] f c = c
IsChain-write heap q v p (r ∷ rs) f (e, there, apart, (o, holds, c)) = (
  e,
  there,
  apart,
  (
    o,
    ap (λ b. if b then v else heap r) (==_ne r q (λ h. f.0 (sym h))) ∙ holds,
    IsChain-write heap q v o.next rs f.1 c,
  ),
)

collect_loop-ok :
    (heap : Heap) (p : ℕ) (objects : List ℕ) (fuel : ℕ)
    → length objects ≤ fuel
    → IsChain heap p objects
    → collect_loop fuel heap p ≡ ok tt
unfolding collect_loop
collect_loop-ok heap zero objects fuel room c = refl
collect_loop-ok heap (suc p) [] fuel room c = absurd (omega arith)
collect_loop-ok heap (suc p) (q ∷ qs) zero room c = absurd (omega arith)
collect_loop-ok heap (suc p) (q ∷ qs) (suc fuel) room (e, there, apart, (o, holds, c)) =
    rw (ap heap e ∙ holds, collect_loop) (collect_loop-ok heap o.next qs fuel (omega arith) c)

gc_collect-ok :
    (w : World) (objects : List ℕ)
    → IsChain w.heap w.gc.head objects
    → length objects ≤ w.gc.allocated
    → gc_collect w ≡ ok tt
unfolding gc_collect
gc_collect-ok w objects c room = collect_loop-ok w.heap w.gc.head objects w.gc.allocated room c

-- What `gc_new` promises: the object is at the head of the chain, its fields are set, and nothing
-- else has changed.
pub record IsNew (w w' : World) (obj kind : ℕ) (objects : List ℕ) : Type 0 where
  pub world : IsWorld w' (obj ∷ objects)
  pub object :
      w'.heap obj ≡ some (record { kind = kind; next = w.gc.head; is_marked = not w.gc.mark_flag })
  pub others : (a : ℕ) → a ≢ obj → w'.heap a ≡ w.heap a
  pub freed_eq : w'.freed ≡ w.freed

-- On a collector with less than `2^64 - 1` objects, for an address that `cc_alloc` can return and a
-- size of more than an object's header, `gc_new` puts the object at the head of the chain with its
-- fields set, and changes no other one, in both builds; its call of `gc_collect` ends.
pub gc_new-IsNew :
    (build : Build) (w : World) (objects : List ℕ) (obj size kind : ℕ)
    → IsWorld w objects
    → length objects + 1 < size_mod
    → obj ≢ 0
    → Fresh obj objects
    → object_size < size
    → Returns (gc_new build w obj size kind) (λ w'. IsNew w w' obj kind objects)
unfolding gc_new link
gc_new-IsNew build w objects obj size kind is few there apart large =
    (link counting obj kind, run, added)
  where
    counting : World
    counting = record w { gc = record w.gc { allocated = (w.gc.allocated + 1) % size_mod } }

    checked : (build : Build) → assert build (ltb object_size size) ≡ ok tt
    checked release = refl
    checked debug = let fits : ltb object_size size ≡ true = ground arith in rw fits refl

    collected : (b : Bool) → (if b then gc_collect counting else ok tt) ≡ ok tt
    collected true = gc_collect-ok counting objects is.chain (omega (arith, is.counted))
    collected false = refl

    run : gc_new build w obj size kind ≡ ok (link counting obj kind)
    run =
        rw (checked build, collected (ltb w.gc.next_collect ((w.gc.allocated + 1) % size_mod))) refl

    new : Object
    new = record { kind = kind; next = w.gc.head; is_marked = not w.gc.mark_flag }

    added : IsNew w (link counting obj kind) obj kind objects
    added = record {
      world = record {
        chain = (
          refl,
          there,
          apart,
          (
            new,
            ap (λ b. if b then some new else w.heap obj) (==_refl obj),
            IsChain-write w.heap obj (some new) w.gc.head objects apart is.chain,
          ),
        );
        counted = omega (arith, is.counted);
      };
      object = ap (λ b. if b then some new else w.heap obj) (==_refl obj);
      others = λ a h. ap (λ b. if b then some new else w.heap a) (==_ne a obj h);
      freed_eq = refl;
    }
