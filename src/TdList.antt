-- ===== src/TdList.antt =====
-- The template `TDList` of src/datas/t_dlist.h: an intrusive doubly linked list with a node count.
-- A method that changes the list returns the new list; `none` is a fault (a bad pointer) or that
-- the fuel of a walk ran out. The heap of the nodes is a field of the model's list.
pub mod Inv
pub mod Add
pub mod Remove
pub mod Walk
mod Tests
use record_lib.Base.{
  ℕ, zero, suc, ◌+◌, ◌-◌, ◌%◌, ◌^◌, Bool, true, false, Option, none, some, ◌==◌, if◌then◌else◌,
  ◌>>=◌, u32_mod,
}
use record_lib.Links.{Ptr, null, Heap, load, set_prev, set_next, free}

pub record TdList (A : Type 0) : Type 0 where
  pub heap : Heap A
  pub head : Ptr
  pub tail : Ptr
  pub num_nodes : ℕ

module _ {A : Type 0} where
  -- The constructor: an empty list over the nodes that exist already.
  abbrev pub empty : Heap A → TdList A
  empty h = record { heap = h; head = null; tail = null; num_nodes = 0 }

  pub get_first : TdList A → Ptr
  get_first s = s.head

  pub add_node_to_tail : Ptr → TdList A → Option (TdList A)
  add_node_to_tail p s = do
    h ← if s.tail == null then some s.heap else set_next s.tail p s.heap
    h ← set_prev p s.tail h
    h ← set_next p null h
    some (record {
      heap = h;
      head = if s.head == null then p else s.head;
      tail = p;
      num_nodes = (s.num_nodes + 1) % u32_mod;
    })

  pub add_node : Ptr → TdList A → Option (TdList A)
  add_node p s = do
    h ← if s.head == null then some s.heap else set_prev s.head p s.heap
    h ← set_prev p null h
    h ← set_next p s.head h
    some (record {
      heap = h;
      head = p;
      tail = if s.tail == null then p else s.tail;
      num_nodes = (s.num_nodes + 1) % u32_mod;
    })

  -- The first half of `remove_node`: what led to the node now leads to its successor.
  pub unlink_next : Ptr → TdList A → Option (TdList A)
  unlink_next p s = do
    n ← load p s.heap
    if s.head == p
        then some (record s { head = n.next })
        else do h ← set_next n.prev n.next s.heap; some (record s { heap = h })

  -- The second half: what led back to the node now leads to its predecessor.
  pub unlink_prev : Ptr → TdList A → Option (TdList A)
  unlink_prev p s = do
    n ← load p s.heap
    if s.tail == p
        then some (record s { tail = n.prev })
        else do h ← set_prev n.next n.prev s.heap; some (record s { heap = h })

  pub remove_node : Ptr → TdList A → Option (TdList A)
  unfolding unlink_next unlink_prev
  remove_node p s = do
    s ← unlink_next p s
    s ← unlink_prev p s
    h ← set_prev p null s.heap
    h ← set_next p null h
    some (record s { heap = h; num_nodes = (s.num_nodes + u32_mod - 1) % u32_mod })

  -- The `while` of `for_each_until`, with fuel. `do_func` is given the node and `userdata`.
  pub until_loop :
      {U : Type 0} (do_func : Ptr → U → TdList A → Option (Bool × U × TdList A))
      → ℕ
      → Ptr
      → U
      → TdList A
      → Option (Ptr × U × TdList A)
  until_loop do_func zero cur u s = none
  until_loop do_func (suc k) cur u s = if cur == null then some (cur, u, s) else do
    n ← load cur s.heap
    (stop, u', s') ← do_func cur u s
    let rest = until_loop do_func k n.next u' s'
    if stop then some (cur, u', s') else rest

  pub for_each_until :
      {U : Type 0} (do_func : Ptr → U → TdList A → Option (Bool × U × TdList A))
      → ℕ
      → U
      → TdList A
      → Option (Ptr × U × TdList A)
  unfolding until_loop
  for_each_until do_func fuel u s = until_loop do_func fuel s.head u s

  -- The `while` of `for_each`, with fuel: the successor is read before the callback runs.
  pub each_loop : (Ptr → TdList A → Option (TdList A)) → ℕ → Ptr → TdList A → Option (TdList A)
  each_loop do_func zero cur s = none
  each_loop do_func (suc k) cur s =
      if cur == null
      then some s
      else do n ← load cur s.heap; s ← do_func cur s; each_loop do_func k n.next s

  pub for_each : (Ptr → TdList A → Option (TdList A)) → ℕ → TdList A → Option (TdList A)
  unfolding each_loop
  for_each do_func fuel s = each_loop do_func fuel s.head s

  -- The callback of `clear_list`.
  pub do_clear_list : Ptr → TdList A → Option (TdList A)
  unfolding remove_node
  do_clear_list p s = do s ← remove_node p s; h ← free p s.heap; some (record s { heap = h })

  pub clear_list : ℕ → TdList A → Option (TdList A)
  unfolding for_each do_clear_list
  clear_list = for_each do_clear_list

  -- The callback of `get_nth_node`. The index is an `int`, here its 32 bits; to count below
  -- INT_MIN is a fault.
  pub compare_index_to_zero : Ptr → ℕ → TdList A → Option (Bool × ℕ × TdList A)
  compare_index_to_zero p val s =
      if val == 0
      then some (true, val, s)
      else if val == 2 ^ 31
      then none
      else some (false, (val + u32_mod - 1) % u32_mod, s)

  pub get_nth_node : ℕ → ℕ → TdList A → Option (Ptr × ℕ × TdList A)
  unfolding for_each_until compare_index_to_zero
  get_nth_node = for_each_until compare_index_to_zero

  pub get_num_nodes : TdList A → ℕ
  get_num_nodes s = s.num_nodes
