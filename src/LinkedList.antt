-- ===== src/LinkedList.antt =====
-- src/list.c and include/ccore/list.h: the intrusive, circular, doubly-linked list. The links of
-- all lists live in one memory from addresses to nodes; a `cclist_t` is the address of its
-- embedded head node, its size and the offset of the node within an object.
pub mod Chain
pub mod Clear
pub mod History
pub mod Insert
pub mod InsertAt
pub mod Memory
pub mod Remove
pub mod Ring
mod Tests
pub mod Walk
use ccore.Base.{
  ℕ, zero, suc, ◌+◌, ◌-◌, ◌%◌, ◌^◌, Bool, true, false, not, ◌||◌, ◌&&◌, Option, none, some, ◌==◌,
  if◌then◌else◌,
}
use ccore.Base.Outcome.{Build, Outcome, ok, fault, out_of_fuel, ◌>>=◌, ◌>>◌, assert}
use ccore.Base.Words.{size_mod}
use Memory.{Ptr, null, Node, Mem, load, set_next, set_prev}

pub record CcList : Type 0 where
  pub size : ℕ
  pub head : Ptr
  pub offset : ℕ

-- The memory of the links, and the list structure that a call updates.
pub record Lists : Type 0 where
  pub mem : Mem
  pub list : CcList

unfoldable pub get_node : CcList → Ptr → Ptr
get_node l ptr = ptr + l.offset

unfoldable pub get_ptr : CcList → Ptr → Ptr
get_ptr l node = node - l.offset

pub grown : CcList → CcList
grown l = record l { size = (l.size + 1) % size_mod }

pub shrunk : CcList → CcList
shrunk l = record l { size = (l.size + size_mod - 1) % size_mod }

-- `cclist_init(list, offset)`, for a list structure at hand
unfoldable pub init : Lists → ℕ → Outcome Lists
init s offset = do
  let l = s.list
  m ← set_next s.mem l.head l.head
  m ← set_prev m l.head l.head
  ok (record { mem = m; list = record l { size = 0; offset = offset } })

unfoldable pub do_insert_after : Lists → Ptr → Ptr → Outcome Lists
unfolding grown get_node
do_insert_after s object node = do
  let item = get_node s.list object
  m ← set_prev s.mem item node
  n ← load m node
  m ← set_next m item n.next
  n ← load m node
  m ← set_prev m n.next item
  m ← set_next m node item
  ok (record { mem = m; list = grown s.list })

unfoldable pub do_insert_before : Lists → Ptr → Ptr → Outcome Lists
unfolding grown get_node
do_insert_before s object node = do
  let item = get_node s.list object
  m ← set_next s.mem item node
  n ← load m node
  m ← set_prev m item n.prev
  n ← load m node
  m ← set_next m n.prev item
  m ← set_prev m node item
  ok (record { mem = m; list = grown s.list })

-- `while(item != &list->head && n--) item = item->next;`, which leaves the item and the counter.
-- The counter is decremented also where the test of it fails, and then wraps.
pub nth_loop : ℕ → Mem → Ptr → Ptr → ℕ → Outcome (Ptr × ℕ)
nth_loop zero m head item n = out_of_fuel
nth_loop (suc fuel) m head item n =
    let next = load m item >>= (λ node. nth_loop fuel m head node.next (n - 1)) in
    if item == head then ok (item, n) else if n == 0 then ok (item, size_mod - 1) else next

unfoldable pub nth_item : Build → ℕ → Lists → ℕ → Outcome Ptr
unfolding nth_loop
nth_item build fuel s n = do
  head ← load s.mem s.list.head
  (item, left) ← nth_loop fuel s.mem s.list.head head.next n
  assert build (left == 0)
  ok item

unfoldable pub insert_at : Build → ℕ → Lists → Ptr → ℕ → Outcome Lists
insert_at build fuel s object n = do nth ← nth_item build fuel s n; do_insert_before s object nth

unfoldable pub insert_first : Lists → Ptr → Outcome Lists
insert_first s object = do_insert_after s object s.list.head

unfoldable pub insert_last : Lists → Ptr → Outcome Lists
insert_last s object = do_insert_before s object s.list.head

unfoldable pub insert_after : Build → Lists → Ptr → Ptr → Outcome Lists
insert_after build s object item = do
  assert build (not (item == null))
  do_insert_after s object (get_node s.list item)

unfoldable pub insert_before : Build → Lists → Ptr → Ptr → Outcome Lists
insert_before build s object item = do
  assert build (not (item == null))
  do_insert_before s object (get_node s.list item)

unfoldable pub remove : Build → Lists → Ptr → Outcome Lists
unfolding shrunk get_node
remove build s object = do
  assert build (not (object == null))
  let node = get_node s.list object
  n ← load s.mem node
  m ← set_next s.mem n.prev n.next
  n ← load m node
  m ← set_prev m n.next n.prev
  m ← set_next m node null
  m ← set_prev m node null
  ok (record { mem = m; list = shrunk s.list })

unfoldable pub remove_first : Lists → Outcome Lists
unfolding shrunk
remove_first s = if s.list.size == 0 then ok s else do
  let head = s.list.head
  h ← load s.mem head
  first ← load s.mem h.next
  m ← set_next s.mem head first.next
  h ← load m head
  m ← set_prev m h.next head
  ok (record { mem = m; list = shrunk s.list })

unfoldable pub remove_last : Lists → Outcome Lists
unfolding shrunk
remove_last s = if s.list.size == 0 then ok s else do
  let head = s.list.head
  h ← load s.mem head
  last ← load s.mem h.prev
  m ← set_prev s.mem head last.prev
  h ← load m head
  m ← set_next m h.prev head
  ok (record { mem = m; list = shrunk s.list })

-- A pointer to an object, or `none` for `NULL` at the head.
pub object_at : CcList → Ptr → Option Ptr
unfolding get_ptr
object_at l node = if node == l.head then none else some (get_ptr l node)

unfoldable pub first : Lists → Outcome (Option Ptr)
unfolding object_at
first s = do h ← load s.mem s.list.head; ok (object_at s.list h.next)

unfoldable pub last : Lists → Outcome (Option Ptr)
unfolding object_at
last s = do h ← load s.mem s.list.head; ok (object_at s.list h.prev)

unfoldable pub next : Lists → Ptr → Outcome (Option Ptr)
unfolding object_at get_node
next s current = do n ← load s.mem (get_node s.list current); ok (object_at s.list n.next)

unfoldable pub prev : Lists → Ptr → Outcome (Option Ptr)
unfolding object_at get_node
prev s current = do n ← load s.mem (get_node s.list current); ok (object_at s.list n.prev)

-- `cclist_clear`: the destructor takes the object and the user data, and may change the memory.
abbrev pub Destructor : Type 0 → Type 0
Destructor U = Ptr → U → Mem → Outcome (U × Mem)

module _ {U : Type 0} where
  -- `if(des) des(to_free, user_data);`
  pub destroy : Option (Destructor U) → Destructor U
  destroy none object u m = ok (u, m)
  destroy (some d) object u m = d object u m

  -- The link to the next item is read before the destructor runs.
  pub clear_loop : ℕ → CcList → Option (Destructor U) → Ptr → U → Mem → Outcome (U × Mem)
  unfolding get_ptr destroy
  clear_loop zero l des item u m = out_of_fuel
  clear_loop (suc fuel) l des item u m =
      let step : Outcome (U × Mem) = (do
        n ← load m item
        (u', m') ← destroy des (get_ptr l item) u m
        clear_loop fuel l des n.next u' m') in
      if item == l.head then ok (u, m) else step

  unfoldable pub clear : ℕ → Lists → Option (Destructor U) → U → Outcome (U × Lists)
  unfolding clear_loop
  clear fuel s des user_data = do
    h ← load s.mem s.list.head
    (u, m) ← clear_loop fuel s.list des h.next user_data s.mem
    s' ← init (record s { mem = m }) s.list.offset
    ok (u, s')
