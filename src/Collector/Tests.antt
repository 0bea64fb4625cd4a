-- ===== src/Collector/Tests.antt =====
-- Two objects in a heap.
use ccore.Base.{ℕ, ◌≡◌, refl, false, none, List, [], ◌∷◌, arith}
use ccore.Base.Outcome.{release, ◌>>=◌, Returns}
use ccore.Collector.{World, gc_init, gc_deinit}
use ccore.Collector.Chain.{IsWorld}
use ccore.Collector.Release.{IsFreed, chain_of, new_all, gc_deinit-new_all}

abbrev nothing_yet : World
nothing_yet = record {
  gc = record { mark_flag = false; head = 0; allocated = 0; next_collect = 0 };
  heap = λ a. none;
  freed = [];
}

nothing_yet-IsWorld : IsWorld nothing_yet []
nothing_yet-IsWorld = record { chain = refl; counted = refl }

abbrev two : List (ℕ × (ℕ × ℕ))
two = (64, (40, 1)) ∷ (128, (32, 0)) ∷ []

gc_deinit-new_all_example :
    Returns
      (new_all release (gc_init nothing_yet) two >>= gc_deinit)
      λ w'. (w'.freed ≡ 128 ∷ 64 ∷ []) × IsFreed w'.heap (chain_of [] two) × IsWorld w' []
gc_deinit-new_all_example = gc_deinit-new_all release nothing_yet two (ground arith) (omega arith)
