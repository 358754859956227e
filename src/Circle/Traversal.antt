-- ===== src/Circle/Traversal.antt =====
-- `traversal` of src/base/base_circle.cpp, and the close of a connection of
-- src/base/base_connect.cpp, which it calls. `none` is a fault or an assertion that fails.
use record_lib.Base.{
  ℕ, zero, suc, ◌+◌, ◌-◌, ◌%◌, Bool, true, Option, none, some, ◌==◌, if◌then◌else◌, ◌>>=◌, u32_mod,
}
use record_lib.Links.{Ptr, null, load}
use record_lib.Circle.{Circle, remove_event}

-- What `io_process` of an event answers.
pub data Answer : Type 0 where
  failure : Answer
  retry : Answer
  success : Answer

-- A connection: the addresses of `m_rdev` and `m_wrev`, `m_closed`, and whether `m_pc` is set, which
-- is this circle then.
pub record Connect : Type 0 where
  pub rdev : Ptr
  pub wrev : Ptr
  pub closed : Bool
  pub pc : Bool

-- `conns` holds the 32 bits of an `s32`; `W` is what lies outside of the circle and the connections.
pub record Loop (W : Type 0) : Type 0 where
  pub circle : Circle
  pub connects : Ptr → Option Connect
  pub conns : ℕ
  pub rest : W

-- `remove_event` of a connection: that of both its events.
unfoldable pub remove_events : Connect → Circle → Option Circle
remove_events m c =
    let both = (do c ← remove_event m.rdev c; remove_event m.wrev c) in
    if m.pc then both else some c

module _ {W : Type 0} where
  abbrev pub set_closed : Ptr → Connect → Loop W → Loop W
  set_closed p m s = record s {
    connects = λ a. if a == p then some (record m { closed = true }) else s.connects a;
  }

  -- `m_next = p->mp_next`
  abbrev pub look_ahead : Ptr → Loop W → Option (Loop W)
  look_ahead p s = do
    n ← load p s.circle.heap
    some (record s { circle = record s.circle { cursor = n.next } })

  -- `connect_remove` is pure virtual, and no class of the repository has it. The timers and the socket
  -- of a connection lie outside of the list.
  module _ (remove_timer_event close_epoll_sock connect_remove : Ptr → W → W) where
    -- `m_pc` is used without a test at the end.
    unfoldable pub connect_close : Ptr → Loop W → Option (Loop W)
    connect_close p s = do
      m ← s.connects p
      let s = set_closed p m s
      let w = remove_timer_event p s.rest
      c ← remove_events m s.circle
      let w = connect_remove p (close_epoll_sock p w)
      let left = record s { circle = c; conns = (s.conns + (u32_mod - 1)) % u32_mod; rest = w }
      if m.pc then some left else none

    unfoldable pub settle : Ptr → Answer → Loop W → Option (Loop W)
    unfolding connect_close
    settle event failure s = do n ← load event s.circle.heap; connect_close n.val.connect s
    settle event retry s = some s
    settle event success s = do c ← remove_event event s.circle; some (record s { circle = c })

    -- `io_process` belongs to the classes of events, which are not in the repository.
    module _ (io_process : Ptr → Loop W → Option (Answer × Loop W)) where
      -- The body of the `for`, up to the step to the next event.
      unfoldable pub turn : Ptr → Loop W → Option (Loop W)
      unfolding settle
      turn event s =
          let round = (do (answer, s) ← io_process event s; settle event answer s) in
          if event == s.circle.cursor then none else round

      unfoldable pub traverse : (fuel : ℕ) → Ptr → Loop W → Option (Loop W)
      unfolding turn
      traverse zero event s = none
      traverse (suc fuel) event s = do
        s ← turn event s
        let next = s.circle.cursor
        let rest = (do s ← look_ahead next s; traverse fuel next s)
        if next == null then some s else rest

      unfoldable pub traversal : (fuel : ℕ) → Loop W → Option (Loop W)
      unfolding traverse
      traversal fuel s =
          let head = s.circle.header in
          let rest = (do s ← look_ahead head s; traverse fuel head s) in
          if head == null
          then some (record s { circle = record s.circle { cursor = null } })
          else rest
