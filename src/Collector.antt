-- ===== src/Collector.antt =====
-- src/value.c and include/ccore/value.h: tagged values, and the chain of objects that the collector
-- owns. `gc_collect` walks the chain and frees nothing yet.
pub mod Chain
pub mod Release
pub mod Values
mod Tests
use ccore.Base.{
  ℕ, zero, suc, ◌+◌, ◌%◌, ◌<◌, Bool, true, false, not, Option, none, some, List, [], ◌∷◌, ◌++◌,
  ◌==◌, ltb, if◌then◌else◌,
}
use ccore.Base.Outcome.{Build, Outcome, ok, fault, out_of_fuel, ◌>>=◌, ◌>>◌, assert}
use ccore.Base.Words.{size_mod}

-- `struct object_s`; a pointer is its address, and `NULL` is 0.
pub record Object : Type 0 where
  pub kind : ℕ
  pub next : ℕ
  pub is_marked : Bool

-- `obj_gc_t`
pub record Gc : Type 0 where
  pub mark_flag : Bool
  pub head : ℕ
  pub allocated : ℕ
  pub next_collect : ℕ

abbrev pub Heap : Type 0
Heap = ℕ → Option Object

abbrev pub write : Heap → ℕ → Option Object → Heap
write heap p o = λ q. if q == p then o else heap q

-- A collector and the heap, with the objects that were freed, in order.
pub record World : Type 0 where
  pub gc : Gc
  pub heap : Heap
  pub freed : List ℕ

abbrev pub initial_threshold : ℕ
initial_threshold = 128

-- `sizeof(object_t)`
abbrev pub object_size : ℕ
object_size = 24

unfoldable pub gc_init : World → World
gc_init w = record w {
  gc = record { mark_flag = true; head = 0; allocated = 0; next_collect = initial_threshold };
}

-- The loop of `gc_deinit` from `obj` on: the chain is read before the object is freed.
unfoldable pub free_loop : ℕ → World → ℕ → Outcome World
free_loop fuel w zero = ok w
free_loop zero w (suc p) = out_of_fuel
free_loop (suc fuel) w (suc p) = elim (w.heap (suc p)) [
  | none ↦ fault
  | some o ↦
      free_loop fuel (record w { heap = write w.heap (suc p) none; freed = w.freed ++ suc p ∷ [] })
        o.next
]

unfoldable pub gc_deinit : World → Outcome World
unfolding free_loop gc_init
gc_deinit w = do w' ← free_loop w.gc.allocated w w.gc.head; ok (gc_init w')

-- The loop of `gc_collect`
unfoldable pub collect_loop : ℕ → Heap → ℕ → Outcome (Unit {0})
collect_loop fuel heap zero = ok tt
collect_loop zero heap (suc p) = out_of_fuel
collect_loop (suc fuel) heap (suc p) = elim (heap (suc p)) [
  | none ↦ fault
  | some o ↦ collect_loop fuel heap o.next
]

unfoldable pub gc_collect : World → Outcome (Unit {0})
unfolding collect_loop
gc_collect w = collect_loop w.gc.allocated w.heap w.gc.head

-- The stores to the new object, behind the count.
unfoldable pub link : World → ℕ → ℕ → World
link w obj kind = record w {
  gc = record w.gc { head = obj };
  heap =
      write w.heap obj
        (some (record { kind = kind; next = w.gc.head; is_marked = not w.gc.mark_flag }));
}

-- `cc_alloc` returns `obj`.
unfoldable pub gc_new : Build → World → ℕ → ℕ → ℕ → Outcome World
unfolding gc_collect link
gc_new build w obj size kind =
    let w' = record w { gc = record w.gc { allocated = (w.gc.allocated + 1) % size_mod } } in
    assert build (ltb object_size size)
    >> (if ltb w'.gc.next_collect w'.gc.allocated then gc_collect w' else ok tt)
    >> ok (link w' obj kind)
