-- ===== src/Collector/Release.antt =====
-- What `gc_deinit` frees.
use ccore.Base.{
  ℕ, zero, suc, ◌+◌, ◌<◌, ◌≤◌, ◌≡◌, ◌≢◌, refl, sym, ap, ◌∙◌, none, List, [], ◌∷◌, ◌++◌, ==_refl,
  ==_ne, if◌then◌else◌, length, arith,
}
use mathlib.Core.List.{append_assoc, append-nil}
use ccore.Base.Outcome.{Build, Outcome, ok, ◌>>=◌, Returns}
use ccore.Base.Words.{size_mod}
use ccore.Collector.{Heap, write, World, object_size, gc_init, free_loop, gc_deinit, gc_new}
use ccore.Collector.Chain.{Fresh, IsChain, IsWorld, IsChain-write, gc_new-IsNew}

-- No object is left at the addresses.
abbrev pub IsFreed : Heap → List ℕ → Type 0
IsFreed heap [] = Unit {0}
IsFreed heap (q ∷ qs) = (heap q ≡ none) × IsFreed heap qs

pub record IsReleased (w w' : World) (objects : List ℕ) : Type 0 where
  -- each object is freed once, the newest first
  pub freed_eq : w'.freed ≡ w.freed ++ objects
  pub gone : IsFreed w'.heap objects
  pub others : (a : ℕ) → Fresh a objects → w'.heap a ≡ w.heap a

free_loop-IsReleased :
    (w : World) (p : ℕ) (objects : List ℕ) (fuel : ℕ)
    → length objects ≤ fuel
    → IsChain w.heap p objects
    → Returns (free_loop fuel w p) (λ w'. IsReleased w w' objects)
unfolding free_loop
free_loop-IsReleased w zero [] fuel room c =
    (w, refl, record { freed_eq = sym (append-nil w.freed); gone = tt; others = λ a f. refl })
free_loop-IsReleased w zero (q ∷ qs) fuel room (e, there, apart, c) = absurd (there (sym e))
free_loop-IsReleased w (suc p) [] fuel room c = absurd (omega arith)
free_loop-IsReleased w (suc p) (q ∷ qs) zero room c = absurd (omega arith)
free_loop-IsReleased w (suc p) (q ∷ qs) (suc fuel) room (e, there, apart, (o, holds, c)) =
    let q_eq : q ≡ suc p = sym e in
    let less : World = record w {
      heap = write w.heap (suc p) none;
      freed = w.freed ++ suc p ∷ [];
    } in
    let (w', run, rest) =
      free_loop-IsReleased less o.next qs fuel (omega arith)
        (IsChain-write w.heap (suc p) none o.next qs (rw e apart) c) in
    let missing : (a : ℕ) → a ≢ suc p → less.heap a ≡ w.heap a =
      λ a h. ap (λ b. if b then none else w.heap a) (==_ne a (suc p) h) in
    (
      w',
      rw (ap w.heap e ∙ holds, free_loop) run,
      record {
        freed_eq =
            rest.freed_eq ∙ append_assoc w.freed (suc p ∷ []) qs ∙ ap (λ x. w.freed ++ x ∷ qs) e;
        gone = (
          rest.others q apart
              ∙ ap less.heap q_eq
              ∙ ap (λ b. if b then none else w.heap (suc p)) (==_refl (suc p)),
          rest.gone,
        );
        others = λ a f. rest.others a f.1 ∙ missing a (λ h. f.0 (h ∙ e));
      },
    )

-- `gc_deinit` frees each object of the chain once, the newest first, and no other, and leaves a
-- collector with no objects, as `gc_init` does; the number of objects is enough fuel for its loop.
pub gc_deinit-IsReleased :
    (w : World) (objects : List ℕ)
    → IsWorld w objects
    → Returns (gc_deinit w) (λ w'. IsReleased w w' objects × IsWorld w' [])
unfolding gc_deinit gc_init
gc_deinit-IsReleased w objects is =
    let (w', run, done) =
      free_loop-IsReleased w w.gc.head objects w.gc.allocated (omega (arith, is.counted))
        is.chain in
    (
      gc_init w',
      rw run refl,
      (
        record { freed_eq = done.freed_eq; gone = done.gone; others = done.others },
        record { chain = refl; counted = refl },
      ),
    )

-- `gc_new` for each address, size and kind in turn
abbrev pub new_all : Build → World → List (ℕ × (ℕ × ℕ)) → Outcome World
new_all build w [] = ok w
new_all build w ((obj, (size, kind)) ∷ news) =
    gc_new build w obj size kind >>= λ w'. new_all build w' news

abbrev pub AreNew : List ℕ → List (ℕ × (ℕ × ℕ)) → Type 0
AreNew objects [] = Unit {0}
AreNew objects ((obj, (size, kind)) ∷ news) =
    (obj ≢ 0) × Fresh obj objects × (object_size < size) × AreNew (obj ∷ objects) news

abbrev pub chain_of : List ℕ → List (ℕ × (ℕ × ℕ)) → List ℕ
chain_of objects [] = objects
chain_of objects ((obj, (size, kind)) ∷ news) = chain_of (obj ∷ objects) news

new_all-IsWorld :
    (build : Build) (w : World) (objects : List ℕ) (news : List (ℕ × (ℕ × ℕ)))
    → IsWorld w objects
    → AreNew objects news
    → length objects + length news < size_mod
    → Returns (new_all build w news) λ w'. IsWorld w' (chain_of objects news) × (w'.freed ≡ w.freed)
new_all-IsWorld build w objects [] is are few = (w, refl, (is, refl))
new_all-IsWorld build w objects ((obj, (size, kind)) ∷ news) is (there, apart, large, are) few =
    let (w', run, new) =
      gc_new-IsNew build w objects obj size kind is (omega arith) there apart large in
    let (w'', runs, (is', freed_eq)) =
      new_all-IsWorld build w' (obj ∷ objects) news new.world are (omega arith) in
    (w'', rw run runs, (is', freed_eq ∙ new.freed_eq))

-- A collector that is initialised, given less than `2^64` new objects at different addresses, and
-- deinitialised, frees each of those objects once, from the last to the first, and has none left.
pub gc_deinit-new_all :
    (build : Build) (w : World) (news : List (ℕ × (ℕ × ℕ)))
    → AreNew [] news
    → length news < size_mod
    → Returns (new_all build (gc_init w) news >>= gc_deinit) λ w'.
      (w'.freed ≡ w.freed ++ chain_of [] news) × IsFreed w'.heap (chain_of [] news) × IsWorld w' []
unfolding gc_init
gc_deinit-new_all build w news are few =
    let (w₁, run, (is, kept)) =
      new_all-IsWorld build (gc_init w) [] news (record { chain = refl; counted = refl }) are
        (omega arith) in
    let (w₂, runs, (released, empty)) = gc_deinit-IsReleased w₁ (chain_of [] news) is in
    (
      w₂,
      rw run runs,
      (released.freed_eq ∙ ap (λ l. l ++ chain_of [] news) kept, released.gone, empty),
    )
