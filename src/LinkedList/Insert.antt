-- ===== src/LinkedList/Insert.antt =====
-- `cclist_insert_first`, `_last`, `_after` and `_before`: the four writes of an insertion, and the
-- sequence that the list then holds.
pub mod Sequence
use mathlib.Core.List.{reverse, reverse-append}
use mathlib.Core.Path.{subst, subst₂}
use ccore.Base.{
  ℕ, ◌+◌, ◌-◌, ◌%◌, ◌≡◌, refl, sym, ◌∙◌, ap, ◌≢◌, true, false, some, List, [], ◌∷◌, ◌++◌, map,
  arith, ◌==◌, if◌then◌else◌, length,
}
use ccore.Base.Outcome.{Outcome, ok, ◌>>=◌}
use ccore.LinkedList.{CcList, Lists, get_node, grown, do_insert_after, do_insert_before}
use ccore.LinkedList.Memory.{
  Ptr, Mem, next_at, prev_at, load-next_at, load-prev_at, next_at_of_prev_at, set_next-next_at,
  set_prev-prev_at,
}
use ccore.LinkedList.Chain.{
  mem, IsNodup, last_of, first_or, Chain, mem-append, mem-reverse, mem-last_of, last_of-reverse,
  first_or-reverse, IsNodup-insert, IsNodup-reverse, Chain-link, mem-first_or, mem_first_or,
  reverse-middle, Chain-defined, Chain-insert,
}
use ccore.LinkedList.Ring.{IsRing, IsList, nodes}

-- `item` has been linked in between `pred` and `succ`, and no other link has changed.
pub record IsSpliced (m m' : Mem) (item pred succ : Ptr) : Type 0 where
  pub nexts :
      (a : Ptr)
      → next_at m' a
        ≡ (if pred == a then some item else if item == a then some succ else next_at m a)
  pub prevs :
      (a : Ptr)
      → prev_at m' a
        ≡ (if succ == a then some item else if item == a then some pred else prev_at m a)

-- A run that ends normally, splices `item` in and counts one more.
abbrev pub Splices : Lists → Outcome Lists → Ptr → Ptr → Ptr → Type 0
Splices s r item pred succ =
    (m' : Mem) × (r ≡ ok (record { mem = m'; list = grown s.list }))
    × IsSpliced s.mem m' item pred succ

module _ (s : Lists) (object : Ptr) {r t : Ptr} where
  pub do_insert_after-IsSpliced :
      (node succ : Ptr)
      → next_at s.mem (get_node s.list object) ≡ some r
      → next_at s.mem node ≡ some succ
      → next_at s.mem succ ≡ some t
      → get_node s.list object ≢ node
      → get_node s.list object ≢ succ
      → Splices s (do_insert_after s object node) (get_node s.list object) node succ
  unfolding do_insert_after
  do_insert_after-IsSpliced node succ hi hn hs ne nf =
      let item = object + s.list.offset in
      let (m₁, e₁, (p₁, n₁)) = set_prev-prev_at s.mem item node hi in
      let (a, l₁, a-next) = load-next_at m₁ node succ (n₁ node ∙ hn) in
      let (m₂, e₂, (n₂, p₂)) = set_next-next_at m₁ item succ (n₁ item ∙ hi) in
      let at_node : next_at m₂ node ≡ some succ = ground (arith, n₂ node, n₁ node) in
      let at_succ : next_at m₂ succ ≡ some t = ground (arith, n₂ succ, n₁ succ) in
      let (b, l₂, b-next) = load-next_at m₂ node succ at_node in
      let (m₃, e₃, (p₃, n₃)) = set_prev-prev_at m₂ succ item at_succ in
      let (m₄, e₄, (n₄, p₄)) = set_next-next_at m₃ node item (n₃ node ∙ at_node) in
      (
        m₄,
        rw (e₁, l₁, a-next, e₂, l₂, b-next, e₃, e₄),
        record {
          nexts = λ q. ground (arith, n₄ q, n₃ q, n₂ q, n₁ q);
          prevs = λ q. ground (arith, p₄ q, p₃ q, p₂ q, p₁ q);
        },
      )

  pub do_insert_before-IsSpliced :
      (node pred : Ptr)
      → next_at s.mem (get_node s.list object) ≡ some r
      → prev_at s.mem node ≡ some pred
      → next_at s.mem pred ≡ some t
      → get_node s.list object ≢ node
      → get_node s.list object ≢ pred
      → Splices s (do_insert_before s object node) (get_node s.list object) pred node
  unfolding do_insert_before
  do_insert_before-IsSpliced node pred hi hn hp ne nf =
      let item = object + s.list.offset in
      let (u, at_node) = next_at_of_prev_at s.mem node pred hn in
      let (m₁, e₁, (n₁, p₁)) = set_next-next_at s.mem item node hi in
      let (a, l₁, a-prev) = load-prev_at m₁ node pred (p₁ node ∙ hn) in
      let at_item : next_at m₁ item ≡ some node = ground (arith, n₁ item) in
      let (m₂, e₂, (p₂, n₂)) = set_prev-prev_at m₁ item pred at_item in
      let node_prev : prev_at m₂ node ≡ some pred = ground (arith, p₂ node, p₁ node) in
      let pred_next : next_at m₂ pred ≡ some t = ground (arith, n₂ pred, n₁ pred) in
      let (b, l₂, b-prev) = load-prev_at m₂ node pred node_prev in
      let (m₃, e₃, (n₃, p₃)) = set_next-next_at m₂ pred item pred_next in
      let (v, at_node₃) = next_at_of_prev_at m₃ node pred (p₃ node ∙ node_prev) in
      let (m₄, e₄, (p₄, n₄)) = set_prev-prev_at m₃ node item at_node₃ in
      (
        m₄,
        rw (e₁, l₁, a-prev, e₂, l₂, b-prev, e₃, e₄),
        record {
          nexts = λ q. ground (arith, n₄ q, n₃ q, n₂ q, n₁ q);
          prevs = λ q. ground (arith, p₄ q, p₃ q, p₂ q, p₁ q);
        },
      )

-- A new address spliced in between two neighbours of a ring gives a ring.
pub splice-IsRing :
    (m m' : Mem) (item h : Ptr) (xs ys : List Ptr)
    → IsRing m h (xs ++ ys)
    → mem item (h ∷ (xs ++ ys)) ≡ false
    → IsSpliced m m' item (last_of h xs) (first_or h ys)
    → IsRing m' h (xs ++ item ∷ ys)
splice-IsRing m m' item h xs ys ring out to =
    let pred = last_of h xs in
    let succ = first_or h ys in
    let pred_ne : (pred == item) ≡ false =
      ground (arith, mem-last_of h xs, mem-append pred xs ys) in
    let succ_ne : (succ == item) ≡ false = ground (arith, mem-first_or h xs ys) in
    let back = subst (λ l. Chain (prev_at m) h l h) (reverse-append xs ys) ring.backward in
    let apart =
      subst (λ l. IsNodup (h ∷ l)) (reverse-append xs ys)
        ((
          mem-reverse h (xs ++ ys) ∙ ring.distinct.0,
          IsNodup-reverse (xs ++ ys) ring.distinct.1,
        )) in
    let away = λ (p : Ptr). mem-append p (reverse ys) (reverse xs) in
    record {
      forward =
          Chain-insert (next_at m) (next_at m') item h h xs ys ring.forward ring.distinct
            (ground (arith, to.nexts pred)) (ground (arith, to.nexts item))
            (λ p at ne. ground (arith, to.nexts p));
      backward =
          subst (λ l. Chain (prev_at m') h l h) (sym (reverse-middle item xs ys))
            (Chain-insert (prev_at m) (prev_at m') item h h (reverse ys) (reverse xs) back apart
              (ground (arith, to.prevs succ, last_of-reverse h ys))
              (ground (arith, to.prevs item, first_or-reverse h xs))
              (λ p at ne. ground (
                arith,
                to.prevs p,
                last_of-reverse h ys,
                away p,
                mem-append p xs ys,
                mem-reverse p xs,
                mem-reverse p ys,
              )));
      distinct = (
        ground (arith, mem-append h xs (item ∷ ys), mem-append h xs ys),
        IsNodup-insert item xs ys ring.distinct.1 (ground arith),
      );
    }

-- Links of addresses outside the ring stay as they were.
pub splice_elsewhere :
    (m m' : Mem) (item h : Ptr) (xs ys : List Ptr)
    → IsSpliced m m' item (last_of h xs) (first_or h ys)
    → (a : Ptr) → mem a (h ∷ (xs ++ item ∷ ys)) ≡ false
    → (next_at m' a ≡ next_at m a) × (prev_at m' a ≡ prev_at m a)
splice_elsewhere m m' item h xs ys to a out =
    let pred_ne : (last_of h xs == a) ≡ false = ground (
      arith,
      mem-last_of h xs,
      mem-append a xs (item ∷ ys),
      mem-append (last_of h xs) xs (item ∷ ys),
    ) in
    let succ_ne : (first_or h ys == a) ≡ false = ground (
      arith,
      mem-first_or h (xs ++ item ∷ []) ys,
      mem-append a xs (item ∷ ys),
      mem_first_or a h ys,
    ) in
    (
      ground (arith, to.nexts a, mem-append a xs (item ∷ ys)),
      ground (arith, to.prevs a, mem-append a xs (item ∷ ys)),
    )

module _ (s : Lists) (object : Ptr) (xs ys : List Ptr) where
  -- The insertion behind the last node of a front part, and before the first one of the rest.
  pub ring_insert_after :
      {r : Ptr}
      → IsRing s.mem s.list.head (xs ++ ys)
      → next_at s.mem (get_node s.list object) ≡ some r
      → mem (get_node s.list object) (s.list.head ∷ (xs ++ ys)) ≡ false
      → Splices s
          (do_insert_after s object (last_of s.list.head xs))
          (get_node s.list object)
          (last_of s.list.head xs)
          (first_or s.list.head ys)
  ring_insert_after ring linked out =
      let h = s.list.head in
      let succ = first_or h ys in
      let (t, at_succ) =
        Chain-defined (next_at s.mem) succ h h (xs ++ ys) ring.forward (mem-first_or h xs ys) in
      do_insert_after-IsSpliced s object (last_of h xs) succ linked
        (Chain-link (next_at s.mem) h h xs ys ring.forward) at_succ
        (λ e. ground (arith, mem-last_of h xs, mem-append (last_of h xs) xs ys))
        (λ e. ground (arith, mem-first_or h xs ys))

  pub ring_insert_before :
      {r : Ptr}
      → IsRing s.mem s.list.head (xs ++ ys)
      → next_at s.mem (get_node s.list object) ≡ some r
      → mem (get_node s.list object) (s.list.head ∷ (xs ++ ys)) ≡ false
      → Splices s
          (do_insert_before s object (first_or s.list.head ys))
          (get_node s.list object)
          (last_of s.list.head xs)
          (first_or s.list.head ys)
  ring_insert_before ring linked out =
      let h = s.list.head in
      let pred = last_of h xs in
      let (t, at_pred) =
        Chain-defined (next_at s.mem) pred h h (xs ++ ys) ring.forward
          (ground (arith, mem-last_of h xs, mem-append pred xs ys)) in
      let back = subst (λ l. Chain (prev_at s.mem) h l h) (reverse-append xs ys) ring.backward in
      let link =
        subst₂ (λ a b. prev_at s.mem a ≡ some b) (last_of-reverse h ys) (first_or-reverse h xs)
          (Chain-link (prev_at s.mem) h h (reverse ys) (reverse xs) back) in
      do_insert_before-IsSpliced s object (first_or h ys) pred linked link at_pred
        (λ e. ground (arith, mem-first_or h xs ys))
        (λ e. ground (arith, mem-last_of h xs, mem-append pred xs ys))
