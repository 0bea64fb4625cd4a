-- ===== src/LinkedList/Memory.antt =====
-- The `cclist_node_t` structures of a program, by address. An access to an address that holds no
-- node, `NULL` among them, is a fault.
use mathlib.Core.Option
use ccore.Base.{
  ℕ, ◌≡◌, refl, ◌≢◌, not, inl, inr, Option, none, some, arith, ◌==◌, if◌then◌else◌, Option-cases,
}
use ccore.Base.Outcome.{Build, assert, Outcome, ok, fault, ◌>>=◌, Returns}

abbrev pub Ptr : Type 0
Ptr = ℕ

abbrev pub null : Ptr
null = 0

pub record Node : Type 0 where
  pub prev : Ptr
  pub next : Ptr

abbrev pub Mem : Type 0
Mem = Ptr → Option Node

unfoldable pub write : Mem → Ptr → Option Node → Mem
write m p n q = if p == q then n else m q

unfoldable pub load : Mem → Ptr → Outcome Node
load m p = elim (m p) [ none ↦ fault | some n ↦ ok n ]

-- `p->next = q` and `p->prev = q`
unfoldable pub set_next : Mem → Ptr → Ptr → Outcome Mem
unfolding load write
set_next m p q = do n ← load m p; ok (write m p (some (record n { next = q })))

unfoldable pub set_prev : Mem → Ptr → Ptr → Outcome Mem
unfolding load write
set_prev m p q = do n ← load m p; ok (write m p (some (record n { prev = q })))

-- The two links that leave an address.
unfoldable pub next_at : Mem → Ptr → Option Ptr
next_at m p = Option.map (λ n. n.next) (m p)

unfoldable pub prev_at : Mem → Ptr → Option Ptr
prev_at m p = Option.map (λ n. n.prev) (m p)

module _ (m : Mem) (p : Ptr) where
  pub load-next_at : (q : Ptr) → next_at m p ≡ some q → Returns (load m p) (λ n. n.next ≡ q)
  unfolding load next_at
  load-next_at q h = elim (Option-cases (m p)) [
    | inl e ↦ absurd (ground arith)
    | inr (n, e) ↦ (n, rw (e, load), ground arith)
  ]

  pub load-prev_at : (q : Ptr) → prev_at m p ≡ some q → Returns (load m p) (λ n. n.prev ≡ q)
  unfolding load prev_at
  load-prev_at q h = elim (Option-cases (m p)) [
    | inl e ↦ absurd (ground arith)
    | inr (n, e) ↦ (n, rw (e, load), ground arith)
  ]

  -- An address that one link leaves is left by the other link too.
  pub next_at_of_prev_at : (q : Ptr) → prev_at m p ≡ some q → (r : Ptr) × (next_at m p ≡ some r)
  unfolding next_at prev_at
  next_at_of_prev_at q h = elim (Option-cases (m p)) [
    | inl e ↦ absurd (ground arith)
    | inr (n, e) ↦ (n.next, ground arith)
  ]

  pub set_next-next_at :
      (q : Ptr) {r : Ptr}
      → next_at m p ≡ some r
      → Returns (set_next m p q) λ m'.
        ((a : Ptr) → next_at m' a ≡ (if p == a then some q else next_at m a))
        × ((a : Ptr) → prev_at m' a ≡ prev_at m a)
  unfolding set_next load write next_at prev_at
  set_next-next_at q h = elim (Option-cases (m p)) [
    | inl e ↦ absurd (ground arith)
    | inr (n, e) ↦ (
      write m p (some (record n { next = q })),
      ground arith,
      (λ a. ground arith, λ a. ground arith),
    )
  ]

  pub set_prev-prev_at :
      (q : Ptr) {r : Ptr}
      → next_at m p ≡ some r
      → Returns (set_prev m p q) λ m'.
        ((a : Ptr) → prev_at m' a ≡ (if p == a then some q else prev_at m a))
        × ((a : Ptr) → next_at m' a ≡ next_at m a)
  unfolding set_prev load write next_at prev_at
  set_prev-prev_at q h = elim (Option-cases (m p)) [
    | inl e ↦ absurd (ground arith)
    | inr (n, e) ↦ (
      write m p (some (record n { prev = q })),
      ground arith,
      (λ a. ground arith, λ a. ground arith),
    )
  ]

  pub load-both :
      {q r : Ptr}
      → next_at m p ≡ some q
      → prev_at m p ≡ some r
      → Returns (load m p) (λ n. (n.next ≡ q) × (n.prev ≡ r))
  unfolding load next_at prev_at
  load-both h k = elim (Option-cases (m p)) [
    | inl e ↦ absurd (ground arith)
    | inr (n, e) ↦ (n, rw (e, load), (ground arith, ground arith))
  ]

  pub prev_at_of_next_at : (q : Ptr) → next_at m p ≡ some q → (r : Ptr) × (prev_at m p ≡ some r)
  unfolding next_at prev_at
  prev_at_of_next_at q h = elim (Option-cases (m p)) [
    | inl e ↦ absurd (ground arith)
    | inr (n, e) ↦ (n.prev, ground arith)
  ]

-- The checks on pointers pass where the pointer is not `NULL`.
pub assert_ne : (build : Build) (p : Ptr) → p ≢ null → assert build (not (p == null)) ≡ ok tt
assert_ne Build.debug p ne = ground arith
assert_ne Build.release p ne = refl

-- The links of an address are read from its node alone.
module _ (m m' : Mem) (p : Ptr) (same : m' p ≡ m p) where
  pub next_at_congr : next_at m' p ≡ next_at m p
  unfolding next_at
  next_at_congr = rw same

  pub prev_at_congr : prev_at m' p ≡ prev_at m p
  unfolding prev_at
  prev_at_congr = rw same
