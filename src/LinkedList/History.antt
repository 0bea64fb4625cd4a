-- ===== src/LinkedList/History.antt =====
-- Sequences of calls on one list, and the plain sequences of objects that they stand for.
pub mod Kept
pub mod Refines
use ccore.Base.{◌≡◌, ◌≢◌, true, false, List, [], ◌∷◌, ◌++◌, ◌==◌, if◌then◌else◌, length, ◌<◌}
use ccore.Base.Outcome.{Build, Outcome, ok, ◌>>=◌}
use ccore.Base.Words.{size_mod}
use ccore.LinkedList.{
  Lists, insert_first, insert_last, insert_after, insert_before, remove, remove_first, remove_last,
}
use ccore.LinkedList.Memory.{Ptr, null}
use ccore.LinkedList.Chain.{mem}

pub data Call : Type 0 where
  put_first put_last : Ptr → Call
  put_after put_before : (object item : Ptr) → Call
  take_out : Ptr → Call
  take_first take_last : Call

unfoldable pub call : Build → Lists → Call → Outcome Lists
call build s (put_first object) = insert_first s object
call build s (put_last object) = insert_last s object
call build s (put_after object item) = insert_after build s object item
call build s (put_before object item) = insert_before build s object item
call build s (take_out object) = remove build s object
call build s take_first = remove_first s
call build s take_last = remove_last s

unfoldable pub calls : Build → Lists → List Call → Outcome Lists
unfolding call
calls build s [] = ok s
calls build s (c ∷ cs) = do s' ← call build s c; calls build s' cs

-- The item of a sequence is replaced by a few objects, among which it may be.
abbrev pub replace : Ptr → List Ptr → List Ptr → List Ptr
replace item by [] = []
replace item by (o ∷ os) = if o == item then by ++ os else o ∷ replace item by os

abbrev pub without_last : List Ptr → List Ptr
without_last [] = []
without_last (o ∷ []) = []
without_last (o ∷ p ∷ os) = o ∷ without_last (p ∷ os)

abbrev pub without_first : List Ptr → List Ptr
without_first [] = []
without_first (o ∷ os) = os

-- What the calls do to a sequence.
abbrev pub effect : Call → List Ptr → List Ptr
effect (put_first object) os = object ∷ os
effect (put_last object) os = os ++ object ∷ []
effect (put_after object item) os = replace item (item ∷ object ∷ []) os
effect (put_before object item) os = replace item (object ∷ item ∷ []) os
effect (take_out object) os = replace object [] os
effect take_first os = without_first os
effect take_last os = without_last os

abbrev pub effects : List Call → List Ptr → List Ptr
effects [] os = os
effects (c ∷ cs) os = effects cs (effect c os)

-- What the calls ask for: an object of `pool` that is not in the list, an item that is.
module _ (pool : List Ptr) where
  abbrev pub IsNew : Ptr → List Ptr → Type 0
  IsNew object os = (mem object pool ≡ true) × (mem object os ≡ false)

  abbrev pub Allowed : Call → List Ptr → Type 0
  Allowed (put_first object) os = IsNew object os
  Allowed (put_last object) os = IsNew object os
  Allowed (put_after object item) os = IsNew object os × (mem item os ≡ true) × (item ≢ null)
  Allowed (put_before object item) os = IsNew object os × (mem item os ≡ true) × (item ≢ null)
  Allowed (take_out object) os = (mem object os ≡ true) × (object ≢ null)
  Allowed take_first os = length os < size_mod
  Allowed take_last os = length os < size_mod

  abbrev pub AllAllowed : List Call → List Ptr → Type 0
  AllAllowed [] os = Unit {0}
  AllAllowed (c ∷ cs) os = Allowed c os × AllAllowed cs (effect c os)
