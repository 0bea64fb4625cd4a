-- ===== src/LinkedList/Chain.antt =====
-- Chains of links: from one address a partial function leads through a sequence to another.
-- The `next` links of a list form a chain through its nodes, the `prev` links one through the
-- reversed nodes, so each fact here serves both directions.
use mathlib.Core.List.{append_assoc, reverse, reverse-append, reverse-reverse}
use ccore.Base.{
  ◌≡◌, refl, sym, ◌∙◌, ap, ◌≢◌, Bool, true, false, ◌||◌, Option, some, List, [], ◌∷◌, ◌++◌, arith,
  ◌==◌, inl, inr, Bool-cases,
}
use mathlib.Core.Path.{subst}
use ccore.LinkedList.Memory.{Ptr}

abbrev pub mem : Ptr → List Ptr → Bool
mem a [] = false
mem a (x ∷ xs) = (a == x) || mem a xs

abbrev pub IsNodup : List Ptr → Type 0
IsNodup [] = Unit {0}
IsNodup (x ∷ xs) = (mem x xs ≡ false) × IsNodup xs

-- The last address of `a ∷ xs`.
abbrev pub last_of : Ptr → List Ptr → Ptr
last_of a [] = a
last_of a (x ∷ xs) = last_of x xs

-- The first address of `xs`, or `b`.
abbrev pub first_or : Ptr → List Ptr → Ptr
first_or b [] = b
first_or b (x ∷ xs) = x

abbrev pub Chain : (Ptr → Option Ptr) → Ptr → List Ptr → Ptr → Type 0
Chain f a [] b = f a ≡ some b
Chain f a (x ∷ xs) b = (f a ≡ some x) × Chain f x xs b

pub mem-append : (a : Ptr) (xs ys : List Ptr) → mem a (xs ++ ys) ≡ (mem a xs || mem a ys)
mem-append a [] ys = refl
mem-append a (x ∷ xs) ys = ground (arith, mem-append a xs ys)

pub mem-reverse : (a : Ptr) (xs : List Ptr) → mem a (reverse xs) ≡ mem a xs
mem-reverse a [] = refl
mem-reverse a (x ∷ xs) =
    ap (mem a) (reverse-append (x ∷ []) xs)
    ∙ ground (arith, mem-append a (reverse xs) (x ∷ []), mem-reverse a xs)

pub mem-last_of : (a : Ptr) (xs : List Ptr) → mem (last_of a xs) (a ∷ xs) ≡ true
mem-last_of a [] = ground arith
mem-last_of a (x ∷ xs) = ground (arith, mem-last_of x xs)

pub last_of-append : (a x : Ptr) (xs ys : List Ptr) → last_of a (xs ++ x ∷ ys) ≡ last_of x ys
last_of-append a x [] ys = refl
last_of-append a x (y ∷ xs) ys = last_of-append y x xs ys

pub last_of-reverse : (a : Ptr) (xs : List Ptr) → last_of a (reverse xs) ≡ first_or a xs
last_of-reverse a [] = refl
last_of-reverse a (x ∷ xs) =
    ap (last_of a) (reverse-append (x ∷ []) xs) ∙ last_of-append a x (reverse xs) []

module _ (f : Ptr → Option Ptr) where
  pub Chain-append :
      (a x b : Ptr) (xs ys : List Ptr)
      → Chain f a xs x
      → Chain f x ys b
      → Chain f a (xs ++ x ∷ ys) b
  Chain-append a x b [] ys c d = (c, d)
  Chain-append a x b (y ∷ xs) ys c d = (c.0, Chain-append y x b xs ys c.1 d)

  pub Chain-split :
      (a x b : Ptr) (xs ys : List Ptr)
      → Chain f a (xs ++ x ∷ ys) b
      → Chain f a xs x × Chain f x ys b
  Chain-split a x b [] ys c = c
  Chain-split a x b (y ∷ xs) ys c = let (d, e) = Chain-split y x b xs ys c.1 in ((c.0, d), e)

  -- The link that leaves the last address of a front part.
  pub Chain-link :
      (a b : Ptr) (xs ys : List Ptr)
      → Chain f a (xs ++ ys) b
      → f (last_of a xs) ≡ some (first_or b ys)
  Chain-link a b [] [] c = c
  Chain-link a b [] (y ∷ ys) c = c.0
  Chain-link a b (x ∷ xs) ys c = Chain-link x b xs ys c.1

module _ (f g : Ptr → Option Ptr) where
  pub Chain-congr :
      (a b : Ptr) (xs : List Ptr)
      → Chain f a xs b
      → ((p : Ptr) → mem p (a ∷ xs) ≡ true → g p ≡ f p)
      → Chain g a xs b
  Chain-congr a b [] c same = same a (ground arith) ∙ c
  Chain-congr a b (x ∷ xs) c same =
      (same a (ground arith) ∙ c.0, Chain-congr x b xs c.1 (λ p m. same p (ground arith)))

  -- Linking `item` in behind the last address of a front part.
  pub Chain-insert :
      (item a b : Ptr) (xs ys : List Ptr)
      → Chain f a (xs ++ ys) b
      → IsNodup (a ∷ (xs ++ ys))
      → g (last_of a xs) ≡ some item
      → g item ≡ some (first_or b ys)
      → ((p : Ptr) → mem p (a ∷ (xs ++ ys)) ≡ true → p ≢ last_of a xs → g p ≡ f p)
      → Chain g a (xs ++ item ∷ ys) b
  Chain-insert item a b [] [] c n at out same = (at, out)
  Chain-insert item a b [] (y ∷ ys) c n at out same =
      (at, (out, Chain-congr y b ys c.1 (λ p m. same p (ground arith) (ground arith))))
  Chain-insert item a b (x ∷ xs) ys c n at out same = (
    same a (ground arith) (λ e. ground (arith, mem-last_of x xs, mem-append (last_of x xs) xs ys))
        ∙ c.0,
    Chain-insert item x b xs ys c.1 n.1 at out (λ p m ne. same p (ground arith) ne),
  )

  -- Linking past the address behind a front part.
  pub Chain-remove :
      (item a b : Ptr) (xs ys : List Ptr)
      → Chain f a (xs ++ item ∷ ys) b
      → IsNodup (a ∷ (xs ++ item ∷ ys))
      → g (last_of a xs) ≡ some (first_or b ys)
      → ((p : Ptr) → mem p (a ∷ (xs ++ ys)) ≡ true → p ≢ last_of a xs → g p ≡ f p)
      → Chain g a (xs ++ ys) b
  Chain-remove item a b [] [] c n at same = at
  Chain-remove item a b [] (y ∷ ys) c n at same =
      (at, Chain-congr y b ys c.1.1 (λ p m. same p (ground arith) (ground arith)))
  Chain-remove item a b (x ∷ xs) ys c n at same = (
    same a (ground arith)
          (λ e. ground (arith, mem-last_of x xs, mem-append (last_of x xs) xs (item ∷ ys)))
        ∙ c.0,
    Chain-remove item x b xs ys c.1 n.1 at (λ p m ne. same p (ground arith) ne),
  )

pub first_or-reverse : (a : Ptr) (xs : List Ptr) → first_or a (reverse xs) ≡ last_of a xs
first_or-reverse a xs = sym (last_of-reverse a (reverse xs)) ∙ ap (last_of a) (reverse-reverse xs)

pub IsNodup-insert :
    (x : Ptr) (xs ys : List Ptr)
    → IsNodup (xs ++ ys)
    → mem x (xs ++ ys) ≡ false
    → IsNodup (xs ++ x ∷ ys)
IsNodup-insert x [] ys n out = (out, n)
IsNodup-insert x (y ∷ xs) ys n out = (
  ground (arith, mem-append y xs (x ∷ ys), mem-append y xs ys),
  IsNodup-insert x xs ys n.1 (ground arith),
)

pub IsNodup-remove :
    (x : Ptr) (xs ys : List Ptr)
    → IsNodup (xs ++ x ∷ ys)
    → IsNodup (xs ++ ys) × (mem x (xs ++ ys) ≡ false)
IsNodup-remove x [] ys n = (n.1, n.0)
IsNodup-remove x (y ∷ xs) ys n =
    let (rest, out) = IsNodup-remove x xs ys n.1 in
    (
      (ground (arith, mem-append y xs (x ∷ ys), mem-append y xs ys), rest),
      ground (arith, mem-append y xs (x ∷ ys)),
    )

IsNodup-snoc : (x : Ptr) (xs : List Ptr) → IsNodup xs → mem x xs ≡ false → IsNodup (xs ++ x ∷ [])
IsNodup-snoc x [] n out = (refl, n)
IsNodup-snoc x (y ∷ xs) n out =
    (ground (arith, mem-append y xs (x ∷ [])), IsNodup-snoc x xs n.1 (ground arith))

pub IsNodup-reverse : (xs : List Ptr) → IsNodup xs → IsNodup (reverse xs)
IsNodup-reverse [] n = n
IsNodup-reverse (x ∷ xs) n =
    subst IsNodup (sym (reverse-append (x ∷ []) xs))
      (IsNodup-snoc x (reverse xs) (IsNodup-reverse xs n.1) (mem-reverse x xs ∙ n.0))

pub mem-first_or : (a : Ptr) (xs ys : List Ptr) → mem (first_or a ys) (a ∷ (xs ++ ys)) ≡ true
mem-first_or a xs [] = ground arith
mem-first_or a xs (y ∷ ys) = ground (arith, mem-append y xs (y ∷ ys))

pub reverse-middle :
    (x : Ptr) (xs ys : List Ptr) → reverse (xs ++ x ∷ ys) ≡ reverse ys ++ x ∷ reverse xs
reverse-middle x xs ys =
    reverse-append xs (x ∷ ys)
    ∙ ap (λ r. r ++ reverse xs) (reverse-append (x ∷ []) ys)
    ∙ append_assoc (reverse ys) (x ∷ []) (reverse xs)

-- Each address of a chain has a link.
pub Chain-defined :
    (f : Ptr → Option Ptr) (p a b : Ptr) (xs : List Ptr)
    → Chain f a xs b
    → mem p (a ∷ xs) ≡ true
    → (q : Ptr) × (f p ≡ some q)
Chain-defined f p a b [] c m = (b, ground arith)
Chain-defined f p a b (x ∷ xs) c m = elim (Bool-cases (p == a)) [
  | inl e ↦ (x, ground arith)
  | inr e ↦ Chain-defined f p x b xs c.1 (ground arith)
]

pub mem_first_or :
    (p a : Ptr) (ys : List Ptr) → mem p (a ∷ ys) ≡ false → (first_or a ys == p) ≡ false
mem_first_or p a [] m = ground arith
mem_first_or p a (y ∷ ys) m = ground arith

-- An address outside a list is none of the list's.
pub mem_false : (p q : Ptr) (xs : List Ptr) → mem p xs ≡ false → mem q xs ≡ true → (p == q) ≡ false
mem_false p q [] out at = cc
mem_false p q (x ∷ xs) out at = ground (arith, mem_false p q xs)

-- The part of a chain that begins at the first of `xs`.
abbrev pub Trail : (Ptr → Option Ptr) → Ptr → List Ptr → Type 0
Trail f b [] = Unit {0}
Trail f b (x ∷ xs) = Chain f x xs b

pub Trail-tail : (f : Ptr → Option Ptr) (b x : Ptr) (xs : List Ptr) → Chain f x xs b → Trail f b xs
Trail-tail f b x [] c = tt
Trail-tail f b x (y ∷ xs) c = c.1

pub Trail-congr :
    (f g : Ptr → Option Ptr) (b : Ptr) (xs : List Ptr)
    → Trail f b xs
    → ((p : Ptr) → mem p xs ≡ true → g p ≡ f p)
    → Trail g b xs
Trail-congr f g b [] c same = tt
Trail-congr f g b (x ∷ xs) c same = Chain-congr f g x b xs c same
