-- ===== src/Memory/Tests.antt =====
-- An allocator over the addresses that are in use.
use ccore.Base.{ℕ, ◌+◌, ◌≡◌, refl, Option, some, List, [], ◌∷◌}
use ccore.Base.Outcome.{debug, ok}
use ccore.Memory.{
  CLibrary, World, is_some, released, default_alloc, set_allocator, realloc, alloc, free,
  default_destructor,
}

-- A new block is one above the last; `free` forgets the last.
abbrev bump : Option ℕ → ℕ → List ℕ → Option ℕ × List ℕ
bump p size [] = (some 1, 1 ∷ [])
bump p size (q ∷ used) = (some (q + 1), (q + 1) ∷ q ∷ used)

abbrev forget : ℕ → List ℕ → List ℕ
forget p [] = []
forget p (q ∷ used) = used

abbrev stack : CLibrary (List ℕ)
stack = record { realloc = bump; free = forget }

abbrev world : World (List ℕ)
world = record { allocator = λ p size h. ok (p, h); heap = 7 ∷ [] }

abbrev by_default : World (List ℕ)
by_default = set_allocator world (default_alloc debug stack)

abbrev with_heap : List ℕ → World (List ℕ)
with_heap used = record { allocator = default_alloc debug stack; heap = used }

one_more : alloc by_default 16 ≡ ok (some 8, with_heap (8 ∷ 7 ∷ []))
unfolding alloc realloc set_allocator default_alloc released is_some
one_more = refl

given_back : free (with_heap (8 ∷ 7 ∷ [])) (some 8) ≡ ok (with_heap (7 ∷ []))
unfolding free realloc default_alloc released is_some
given_back = refl

-- The address of the block that `cc_realloc` has freed.
freed_address : realloc (with_heap (8 ∷ 7 ∷ [])) (some 8) 0 ≡ ok (some 8, with_heap (7 ∷ []))
unfolding realloc default_alloc released is_some
freed_address = refl

destroyed : default_destructor (with_heap (8 ∷ [])) (some 8) ≡ ok (with_heap [])
unfolding default_destructor free realloc default_alloc released is_some
destroyed = refl
