-- ===== src/TaskQueue.antt =====
-- `CTask_queue` of src/datas/task_queue.h: a ring of tasks whose read and write indices are
-- `u32` counters that are reduced by the size at each access. The functions here are the methods
-- run by one thread; the steps of several threads are in the children.
pub mod Inv
pub mod Spec
pub mod Refine
pub mod Resize
pub mod Single
pub mod Multi
mod Tests
use record_lib.Base.{
  ℕ, zero, suc, ◌+◌, ◌-◌, ◌%◌, ◌^◌, Bool, true, false, Option, none, some, List, [], ◌++◌, ◌==◌,
  if◌then◌else◌, ◌>>=◌, u32_mod, get_elem?, set, take, replicate,
}

-- `m_cursize` is written by the constructor only, and read nowhere.
pub record TaskQueue (E : Type 0) : Type 0 where
  pub rdindex : ℕ
  pub wrindex : ℕ
  pub max_rdindex : ℕ
  pub size : ℕ
  pub cursize : ℕ
  pub elems : List E

-- `__sync_add_and_fetch(p, 1)` on a `u32`, the new value.
abbrev pub atomic_add : ℕ → ℕ
atomic_add v = (v + 1) % u32_mod

-- `__sync_bool_compare_and_swap`: whether it stored, and the value after it.
abbrev pub cas : ℕ → ℕ → ℕ → Bool × ℕ
cas v old new = if v == old then (true, new) else (false, v)

-- `n % m_size`, which traps at 0.
abbrev pub rem : ℕ → ℕ → Option ℕ
rem n zero = none
rem n (suc m) = some (n % suc m)

-- `zero_elem` is what `memset` leaves in a slot.
module _ {E : Type 0} (zero_elem : E) where
  pub new_queue : TaskQueue E
  new_queue = record {
    rdindex = 0;
    wrindex = 0;
    max_rdindex = 0;
    size = 0;
    cursize = 0;
    elems = [];
  }

  pub queue_init : ℕ → TaskQueue E → TaskQueue E
  queue_init size q = record q { size = size; elems = replicate size zero_elem }

  -- The old slots are copied to the front of a larger array.
  pub queue_resize : ℕ → TaskQueue E → TaskQueue E
  queue_resize size q = record q {
    size = q.size + size;
    elems = take q.size q.elems ++ replicate size zero_elem;
  }

module _ {E : Type 0} where
  pub is_empty : TaskQueue E → ℕ → ℕ → Option Bool
  is_empty q max_rdindex rdindex = do
    r ← rem rdindex q.size
    m ← rem max_rdindex q.size
    some (r == m)

  pub is_full : TaskQueue E → ℕ → ℕ → Option Bool
  is_full q wrindex rdindex = do
    w ← rem ((wrindex + 1) % u32_mod) q.size
    r ← rem rdindex q.size
    some (w == r)

  -- `enqueue` of the mode SINGLE.
  pub enqueue_single : E → TaskQueue E → Option (Bool × TaskQueue E)
  unfolding is_full
  enqueue_single ele q = do
    full ← is_full q q.wrindex q.rdindex
    if full then some (false, q) else do
      slot ← rem q.wrindex q.size
      some (true, record q { elems = set q.elems slot ele; wrindex = atomic_add q.wrindex })

  -- The loop of `dequeue`, the same text in both modes. `ele` is the caller's variable, which is
  -- assigned before the exchange is tried.
  pub dequeue_loop : ℕ → E → TaskQueue E → Option (Bool × E × TaskQueue E)
  unfolding is_empty
  dequeue_loop zero ele q = none
  dequeue_loop (suc k) ele q = do
    nothing ← is_empty q q.wrindex q.rdindex
    if nothing then some (false, ele, q) else do
      slot ← rem q.rdindex q.size
      x ← get_elem? q.elems slot
      let (stored, rd) = cas q.rdindex q.rdindex (atomic_add q.rdindex)
      let rest = dequeue_loop k x q
      if stored then some (true, x, record q { rdindex = rd }) else rest

  pub dequeue : ℕ → E → TaskQueue E → Option (Bool × E × TaskQueue E)
  unfolding dequeue_loop
  dequeue fuel ele q = dequeue_loop fuel ele q

  -- The first loop of `enqueue` of the mode MULTI: claim a slot.
  pub claim_loop : ℕ → TaskQueue E → Option (Option ℕ × TaskQueue E)
  unfolding is_full
  claim_loop zero q = none
  claim_loop (suc k) q = do
    full ← is_full q q.wrindex q.rdindex
    if full then some (none, q) else do
      let (stored, wr) = cas q.wrindex q.wrindex (atomic_add q.wrindex)
      let rest = claim_loop k q
      if stored then some (some q.wrindex, record q { wrindex = wr }) else rest

  -- Its second loop: publish the slot, in the order of the claims.
  pub publish_loop : ℕ → ℕ → TaskQueue E → Option (TaskQueue E)
  publish_loop zero cur q = none
  publish_loop (suc k) cur q =
      let (stored, rd) = cas q.max_rdindex cur (atomic_add cur) in
      let rest = publish_loop k cur q in
      if stored then some (record q { max_rdindex = rd }) else rest

  pub enqueue_multi : ℕ → E → TaskQueue E → Option (Bool × TaskQueue E)
  unfolding claim_loop publish_loop
  enqueue_multi fuel ele q = do
    (claimed, q) ← claim_loop fuel q
    elim claimed [
      | none ↦ some (false, q)
      | some cur ↦ do
        slot ← rem cur q.size
        q ← publish_loop fuel cur (record q { elems = set q.elems slot ele })
        some (true, q)
    ]
