-- ===== src/Memory.antt =====
-- src/memory.c: the allocator that the library uses, and its default. A block is its address, `none`
-- is NULL, and `H` is whatever the allocators keep; `realloc` and `free` of the C library are
-- arguments.
mod Tests
use ccore.Base.{ℕ, Bool, true, false, Option, none, some, ◌==◌, if◌then◌else◌}
use ccore.Base.Outcome.{Build, Outcome, ok, ◌>>=◌, ◌>>◌, assert}

-- `cc_allocator`
abbrev pub Allocator : Type 0 → Type 0
Allocator H = Option ℕ → ℕ → H → Outcome (Option ℕ × H)

-- `realloc` and `free`
pub record CLibrary (H : Type 0) : Type 0 where
  pub realloc : Option ℕ → ℕ → H → Option ℕ × H
  pub free : ℕ → H → H

-- `__cc_alloc`, and the heap
pub record World (H : Type 0) : Type 0 where
  pub allocator : Allocator H
  pub heap : H

unfoldable pub is_some : Option ℕ → Bool
is_some none = false
is_some (some p) = true

module _ {H : Type 0} where
  -- `if(ptr) free(ptr); return ptr;`
  unfoldable pub released : CLibrary H → Option ℕ → H → Option ℕ × H
  released lib none heap = (none, heap)
  released lib (some p) heap = (some p, lib.free p heap)

  unfoldable pub default_alloc : Build → CLibrary H → Allocator H
  unfolding released is_some
  default_alloc build lib ptr size heap =
      if size == 0
      then ok (released lib ptr heap)
      else (let (ptr', heap') = lib.realloc ptr size heap in
          assert build (is_some ptr') >> ok (ptr', heap'))

  unfoldable pub set_allocator : World H → Allocator H → World H
  set_allocator w allocator = record w { allocator = allocator }

  -- Each use of the allocator.
  unfoldable pub realloc : World H → Option ℕ → ℕ → Outcome (Option ℕ × World H)
  realloc w ptr size = do
    (ptr', heap) ← w.allocator ptr size w.heap
    ok (ptr', record w { heap = heap })

  unfoldable pub alloc : World H → ℕ → Outcome (Option ℕ × World H)
  unfolding realloc
  alloc w size = realloc w none size

  unfoldable pub free : World H → Option ℕ → Outcome (World H)
  unfolding realloc
  free w ptr = do (ptr', w') ← realloc w ptr 0; ok w'

  unfoldable pub default_destructor : World H → Option ℕ → Outcome (World H)
  unfolding free
  default_destructor w ptr = free w ptr
