-- ===== src/Timer.antt =====
-- The timers of src/timer/pure_timer.cpp and src/timer/pure_timer_event.cpp, on the tree of RbTree.
-- An event goes by the address of its `m_ev_node`. The time of day is an argument, and the loops of
-- the tree have `depth` as their fuel.
pub mod Due
mod Tests
use record_lib.Base.{
  ℕ, zero, suc, ◌+◌, ◌-◌, ◌%◌, Bool, true, false, Option, none, some, ◌==◌, ◌||◌, ◌&&◌, ltb,
  if◌then◌else◌, ◌>>=◌, u32_mod,
}
use record_lib.Links.{Ptr, null}
use record_lib.RbTree.{RbTree, RbNode, load, put}
use record_lib.RbTree.Search.{tree_minimum_key, tree_minimum_node}
use record_lib.RbTree.Insert.{rb_insert}
use record_lib.RbTree.Delete.{rb_delete}

abbrev pub u64_mod : ℕ
u64_mod = 18446744073709551616

-- `CBase_timer_event`, beside its node.
pub record TimerEvent : Type 0 where
  pub is_inrbtree : Bool
  pub ptt : Ptr

-- `CPure_timer`, the events and the address of the object.
pub record Timer : Type 0 where
  pub this : Ptr
  pub prbt : RbTree
  pub node_value : ℕ
  pub events : Ptr → Option TimerEvent

abbrev set_event : Ptr → TimerEvent → Timer → Timer
set_event ev e s = record s { events = λ a. if a == ev then some e else s.events a }

-- `m_ev_node.key = key; m_ev_node.data = this;`
abbrev set_node : Ptr → ℕ → Timer → Option Timer
set_node ev key s = do
  n ← load ev s.prbt
  let mem = put ev (record n { key = key; val = ev }) s.prbt.mem
  some (record s { prbt = record s.prbt { mem = mem } })

-- The result is whether it is SUCCESS.
unfoldable pub add_to_timer : (key : ℕ) (ev : Ptr) → Timer → Option (Bool × Timer)
add_to_timer key ev s = do
  e ← s.events ev
  let linked = (do
    s ← set_node ev key s
    some (true, set_event ev (record { is_inrbtree = true; ptt = s.this }) s))
  if e.is_inrbtree then some (false, s) else linked

unfoldable pub remove_timer : Ptr → Timer → Option (Bool × Timer)
remove_timer ev s = do
  e ← s.events ev
  let removed = some (true, set_event ev (record e { is_inrbtree = false }) s)
  if e.is_inrbtree then removed else some (false, s)

-- Both asserts stand in front of the insertion.
unfoldable pub pure_add_timer : (depth now timer : ℕ) (ev : Ptr) → Timer → Option Timer
unfolding add_to_timer
pure_add_timer depth now timer ev s = do
  (added, s) ← add_to_timer ((timer + now) % u64_mod) ev s
  let insert = (do
    n ← load ev s.prbt
    let rest = (do t ← rb_insert depth ev s.prbt; some (record s { prbt = t }))
    if n.lson == null && n.rson == null then rest else none)
  if added then insert else some s

-- A removed event's node is cleared.
unfoldable pub pure_delete_timer : (depth : ℕ) (ev : Ptr) → Timer → Option Timer
unfolding remove_timer
pure_delete_timer depth ev s = do
  (removed, s) ← remove_timer ev s
  let delete = (do
    t ← rb_delete depth ev s.prbt
    let cleared : RbNode = record { parent = 0; lson = 0; rson = 0; colour = 0; key = 0; val = 0 }
    some (record s { prbt = record t { mem = put ev cleared t.mem } }))
  if removed then delete else some s

-- The milliseconds to the first timer.
unfoldable pub pure_find_timer : (depth now : ℕ) → Timer → Option (ℕ × Timer)
pure_find_timer depth now s = do
  (key, ev) ← tree_minimum_key depth s.prbt
  some (if ltb now key then key - now else 0, record s { node_value = key })

-- `s32 delta = node->key - now; delta <= 0`
unfoldable pub is_due : (key now : ℕ) → Bool
is_due key now = let delta = ((key + u64_mod) - now) % u32_mod in delta == 0 || ltb 2147483647 delta

-- What the event's `handle_expire_timer_ex` does.
module _ (handle_expire : Ptr → Timer → Option Timer) where
  unfoldable pub pure_timer_process : (fuel depth now : ℕ) → Timer → Option Timer
  pure_timer_process zero depth now s = none
  pure_timer_process (suc fuel) depth now s = do
    node ← tree_minimum_node depth s.prbt
    n ← load node s.prbt
    let rest = (do
      s ← pure_delete_timer depth n.val s
      s ← handle_expire n.val s
      pure_timer_process fuel depth now s)
    if node == s.prbt.nil then some s else if is_due n.key now then rest else some s

-- `check_timeout` of a connection, src/base/base_connect.cpp: whether it is SUCCESS. `m_cto` is its
-- event, and `active` is `m_active_ms`.
unfoldable pub check_timeout : (depth now active : ℕ) (m_cto : Ptr) → Timer → Option (Bool × Timer)
check_timeout depth now active m_cto s =
    let diff = ((now + u64_mod) - active) % u32_mod in
    let again = (do s ← pure_add_timer depth now 30000 m_cto s; some (true, s)) in
    if ltb 30000 diff && ltb diff 2147483648 then some (false, s) else again
