-- ===== src/LinkedList/Ring.antt =====
-- Well-formed lists: the links of the nodes form a ring in both directions, over distinct
-- addresses, and the size counts them.
use mathlib.Core.List.{reverse}
use ccore.Base.{◌%◌, ◌≡◌, List, ◌∷◌, map, length}
use ccore.Base.Words.{size_mod}
use ccore.LinkedList.{CcList, Lists, get_node}
use ccore.LinkedList.Memory.{Ptr, Mem, next_at, prev_at}
use ccore.LinkedList.Chain.{IsNodup, Chain}

-- The nodes `ns` and the head `h` are linked in a ring.
pub record IsRing (m : Mem) (h : Ptr) (ns : List Ptr) : Type 0 where
  pub forward : Chain (next_at m) h ns h
  pub backward : Chain (prev_at m) h (reverse ns) h
  pub distinct : IsNodup (h ∷ ns)

abbrev pub nodes : CcList → List Ptr → List Ptr
nodes l os = map (get_node l) os

-- The list holds the objects `os` in this order.
pub record IsList (s : Lists) (os : List Ptr) : Type 0 where
  pub ring : IsRing s.mem s.list.head (nodes s.list os)
  pub counted : s.list.size ≡ length os % size_mod
