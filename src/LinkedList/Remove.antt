-- ===== src/LinkedList/Remove.antt =====
-- `cclist_remove`, `cclist_remove_first` and `cclist_remove_last`: the writes of a removal, and the
-- sequence that is left.
pub mod Sequence
use mathlib.Core.List.{reverse, reverse-append}
use mathlib.Core.Path.{subst, subst₂}
use ccore.Base.{
  ℕ, ◌+◌, ◌-◌, ◌%◌, ◌≡◌, refl, sym, ◌∙◌, ap, ◌≢◌, true, false, not, some, List, [], ◌∷◌, ◌++◌, map,
  arith, ◌==◌, if◌then◌else◌, length,
}
use ccore.Base.Outcome.{Build, debug, release, Outcome, ok, ◌>>=◌, Returns, assert}
use ccore.LinkedList.{CcList, Lists, get_node, shrunk, remove, remove_first, remove_last}
use ccore.LinkedList.Memory.{
  assert_ne, Ptr, null, Mem, next_at, prev_at, load-next_at, load-prev_at, next_at_of_prev_at,
  prev_at_of_next_at, set_next-next_at, set_prev-prev_at, load-both,
}
use ccore.LinkedList.Chain.{
  mem, IsNodup, last_of, first_or, Chain, mem-append, mem-reverse, mem-last_of, last_of-reverse,
  first_or-reverse, IsNodup-remove, IsNodup-reverse, Chain-link, Chain-split, Chain-remove,
  mem_false, mem-first_or, mem_first_or, reverse-middle, Chain-defined,
}
use ccore.LinkedList.Ring.{IsRing, IsList, nodes}

-- The links between `pred` and `succ` pass over `item`; other links but the item's are as before.
pub record IsCut (m m' : Mem) (item pred succ : Ptr) : Type 0 where
  pub nexts :
      (a : Ptr)
      → (item == a) ≡ false
      → next_at m' a ≡ (if pred == a then some succ else next_at m a)
  pub prevs :
      (a : Ptr)
      → (item == a) ≡ false
      → prev_at m' a ≡ (if succ == a then some pred else prev_at m a)

-- A run that ends normally, cuts `item` out and counts one less.
abbrev pub Cuts : Lists → Outcome Lists → Ptr → Ptr → Ptr → Type 0
Cuts s r item pred succ =
    (m' : Mem) × (r ≡ ok (record { mem = m'; list = shrunk s.list }))
    × IsCut s.mem m' item pred succ

-- The neighbours of an item, read from its links and theirs.
pub record IsBetween (m : Mem) (item pred succ : Ptr) : Type 0 where
  pub next : next_at m item ≡ some succ
  pub prev : prev_at m item ≡ some pred
  pub pred_next : next_at m pred ≡ some item
  pub succ_prev : prev_at m succ ≡ some item
  pub pred_ne : (item == pred) ≡ false
  pub succ_ne : (item == succ) ≡ false

module _ (s : Lists) (pred succ : Ptr) where
  pub remove-IsCut :
      (build : Build) (object : Ptr)
      → object ≢ null
      → IsBetween s.mem (get_node s.list object) pred succ
      → (c : Cuts s (remove build s object) (get_node s.list object) pred succ) × (next_at c.0
            (get_node s.list object)
          ≡ some null)
        × (prev_at c.0 (get_node s.list object) ≡ some null)
  unfolding remove
  remove-IsCut build object ne is =
      let item = object + s.list.offset in
      let (a, l₁, (a-next, a-prev)) = load-both s.mem item is.next is.prev in
      let (m₁, e₁, (n₁, p₁)) = set_next-next_at s.mem pred succ is.pred_next in
      let item_next : next_at m₁ item ≡ some succ = ground (arith, n₁ item, is.next, is.pred_ne) in
      let (b, l₂, (b-next, b-prev)) = load-both m₁ item item_next (p₁ item ∙ is.prev) in
      let (t, at_succ) = next_at_of_prev_at m₁ succ item (p₁ succ ∙ is.succ_prev) in
      let (m₂, e₂, (p₂, n₂)) = set_prev-prev_at m₁ succ pred at_succ in
      let (m₃, e₃, (n₃, p₃)) = set_next-next_at m₂ item null (n₂ item ∙ item_next) in
      let at_item : next_at m₃ item ≡ some null = ground (arith, n₃ item) in
      let (m₄, e₄, (p₄, n₄)) = set_prev-prev_at m₃ item null at_item in
      (
        (
          m₄,
          rw (assert_ne build object ne, l₁, a-next, a-prev, e₁, l₂, b-next, b-prev, e₂, e₃, e₄),
          record {
            nexts = λ q out. ground (arith, n₄ q, n₃ q, n₂ q, n₁ q);
            prevs = λ q out. ground (arith, p₄ q, p₃ q, p₂ q, p₁ q);
          },
        ),
        n₄ item ∙ at_item,
        ground (arith, p₄ item),
      )

module _ (s : Lists) (item : Ptr) (sized : (s.list.size == 0) ≡ false) where
  pub remove_first-IsCut :
      (succ : Ptr)
      → IsBetween s.mem item s.list.head succ
      → (c : Cuts s (remove_first s) item s.list.head succ) × (next_at c.0 item
          ≡ next_at s.mem item)
        × (prev_at c.0 item ≡ prev_at s.mem item)
  unfolding remove_first
  remove_first-IsCut succ is =
      let h = s.list.head in
      let (a, l₁, a-next) = load-next_at s.mem h item is.pred_next in
      let (b, l₂, b-next) = load-next_at s.mem item succ is.next in
      let (m₁, e₁, (n₁, p₁)) = set_next-next_at s.mem h succ is.pred_next in
      let at_head : next_at m₁ h ≡ some succ = ground (arith, n₁ h) in
      let (c, l₃, c-next) = load-next_at m₁ h succ at_head in
      let (t, at_succ) = next_at_of_prev_at m₁ succ item (p₁ succ ∙ is.succ_prev) in
      let (m₂, e₂, (p₂, n₂)) = set_prev-prev_at m₁ succ h at_succ in
      (
        (
          m₂,
          rw (sized, l₁, a-next, l₂, b-next, e₁, l₃, c-next, e₂),
          record {
            nexts = λ q out. ground (arith, n₂ q, n₁ q);
            prevs = λ q out. ground (arith, p₂ q, p₁ q);
          },
        ),
        ground (arith, n₂ item, n₁ item, is.pred_ne),
        ground (arith, p₂ item, p₁ item, is.succ_ne),
      )

  pub remove_last-IsCut :
      (pred : Ptr)
      → IsBetween s.mem item pred s.list.head
      → (c : Cuts s (remove_last s) item pred s.list.head) × (next_at c.0 item ≡ next_at s.mem item)
        × (prev_at c.0 item ≡ prev_at s.mem item)
  unfolding remove_last
  remove_last-IsCut pred is =
      let h = s.list.head in
      let (a, l₁, a-prev) = load-prev_at s.mem h item is.succ_prev in
      let (b, l₂, b-prev) = load-prev_at s.mem item pred is.prev in
      let (r, at_head) = next_at_of_prev_at s.mem h item is.succ_prev in
      let (m₁, e₁, (p₁, n₁)) = set_prev-prev_at s.mem h pred at_head in
      let head_prev : prev_at m₁ h ≡ some pred = ground (arith, p₁ h) in
      let (c, l₃, c-prev) = load-prev_at m₁ h pred head_prev in
      let (m₂, e₂, (n₂, p₂)) = set_next-next_at m₁ pred h (n₁ pred ∙ is.pred_next) in
      (
        (
          m₂,
          rw (sized, l₁, a-prev, l₂, b-prev, e₁, l₃, c-prev, e₂),
          record {
            nexts = λ q out. ground (arith, n₂ q, n₁ q);
            prevs = λ q out. ground (arith, p₂ q, p₁ q);
          },
        ),
        ground (arith, n₂ item, n₁ item, is.pred_ne),
        ground (arith, p₂ item, p₁ item, is.succ_ne),
      )

module _ (m : Mem) (item h : Ptr) (xs ys : List Ptr) (ring : IsRing m h (xs ++ item ∷ ys)) where
  back-Chain : Chain (prev_at m) h (reverse ys ++ item ∷ reverse xs) h
  back-Chain = subst (λ l. Chain (prev_at m) h l h) (reverse-middle item xs ys) ring.backward

  -- The item is none of the other addresses of the ring.
  pub item_apart : mem item (h ∷ (xs ++ ys)) ≡ false
  item_apart =
      let (rest, out) = IsNodup-remove item xs ys ring.distinct.1 in
      ground (arith, ring.distinct.0, mem-append h xs (item ∷ ys))

  pred_apart : (item == last_of h xs) ≡ false
  pred_apart = ground (arith, item_apart, mem-last_of h xs, mem-append (last_of h xs) xs ys)

  succ_apart : (item == first_or h ys) ≡ false
  succ_apart = mem_false item (first_or h ys) (h ∷ (xs ++ ys)) item_apart (mem-first_or h xs ys)

  pub ring-IsBetween : IsBetween m item (last_of h xs) (first_or h ys)
  ring-IsBetween =
      let (to, away) = Chain-split (next_at m) h item h xs ys ring.forward in
      let (from, back) = Chain-split (prev_at m) h item h (reverse ys) (reverse xs) back-Chain in
      record {
        next = Chain-link (next_at m) item h [] ys away;
        prev =
            subst (λ p. prev_at m item ≡ some p) (first_or-reverse h xs)
              (Chain-link (prev_at m) item h [] (reverse xs) back);
        pred_next = Chain-link (next_at m) h h xs (item ∷ ys) ring.forward;
        succ_prev =
            subst (λ p. prev_at m p ≡ some item) (last_of-reverse h ys)
              (Chain-link (prev_at m) h h (reverse ys) (item ∷ reverse xs) back-Chain);
        pred_ne = pred_apart;
        succ_ne = succ_apart;
      }

  -- Cutting an address out of a ring leaves a ring.
  pub cut-IsRing :
      (m' : Mem) → IsCut m m' item (last_of h xs) (first_or h ys) → IsRing m' h (xs ++ ys)
  cut-IsRing m' cut =
      let (rest, out) = IsNodup-remove item xs ys ring.distinct.1 in
      let apart : IsNodup (h ∷ (reverse ys ++ item ∷ reverse xs)) =
        subst (λ l. IsNodup (h ∷ l)) (reverse-middle item xs ys)
          ((
            mem-reverse h (xs ++ item ∷ ys) ∙ ring.distinct.0,
            IsNodup-reverse (xs ++ item ∷ ys) ring.distinct.1,
          )) in
      record {
        forward =
            Chain-remove (next_at m) (next_at m') item h h xs ys ring.forward ring.distinct
              (ground (arith, cut.nexts (last_of h xs), pred_apart))
              (λ p at ne.
                ground (arith, cut.nexts p, mem_false item p (h ∷ (xs ++ ys)) item_apart));
        backward =
            subst (λ l. Chain (prev_at m') h l h) (sym (reverse-append xs ys))
              (Chain-remove (prev_at m) (prev_at m') item h h (reverse ys) (reverse xs) back-Chain
                apart
                (ground (
                  arith,
                  cut.prevs (first_or h ys),
                  succ_apart,
                  last_of-reverse h ys,
                  first_or-reverse h xs,
                ))
                (λ p at ne. ground (
                  arith,
                  cut.prevs p,
                  mem_false item p (h ∷ (xs ++ ys)) item_apart,
                  last_of-reverse h ys,
                  mem-append p (reverse ys) (reverse xs),
                  mem-append p xs ys,
                  mem-reverse p xs,
                  mem-reverse p ys,
                )));
        distinct = (ground (arith, mem-append h xs (item ∷ ys), mem-append h xs ys), rest);
      }

  pub cut_elsewhere :
      (m' : Mem)
      → IsCut m m' item (last_of h xs) (first_or h ys)
      → (a : Ptr) → mem a (h ∷ (xs ++ item ∷ ys)) ≡ false
      → (next_at m' a ≡ next_at m a) × (prev_at m' a ≡ prev_at m a)
  cut_elsewhere m' cut a out =
      let pred_ne : (last_of h xs == a) ≡ false = ground (
        arith,
        mem_false a (last_of h xs) (h ∷ xs),
        mem-last_of h xs,
        mem-append a xs (item ∷ ys),
      ) in
      let succ_ne : (first_or h ys == a) ≡ false =
        ground (arith, mem_first_or a h ys, mem-append a xs (item ∷ ys)) in
      let item_ne : (item == a) ≡ false = ground (arith, mem-append a xs (item ∷ ys)) in
      (ground (arith, cut.nexts a item_ne), ground (arith, cut.prevs a item_ne))
