-- ===== src/Circle.antt =====
-- The list of I/O events of src/base/base_circle.cpp, on the nodes of Links: an event's `mp_prev` and
-- `mp_next` are the pointers of its node. `none` is a fault or an assertion that fails.
pub mod Inv
pub mod Remove
pub mod Add
pub mod Traversal
pub mod Closes
pub mod Walk
mod Tests
use record_lib.Base.{
  ℕ, zero, suc, Bool, true, false, Option, none, some, ◌==◌, if◌then◌else◌, ◌>>=◌,
}
use record_lib.Links.{Ptr, null, Heap, load, set_prev, set_next, set_val, link_back}

-- An event beside its pointers; `connect` is the address of its connection.
pub record IoEvent : Type 0 where
  pub linked : Bool
  pub connect : Ptr

-- `header` is `mp_header`, and `cursor` is `m_next`.
pub record Circle : Type 0 where
  pub heap : Heap IoEvent
  pub header : Ptr
  pub cursor : Ptr

-- `event->m_linked = b`
unfoldable pub set_linked : Bool → Ptr → Heap IoEvent → Option (Heap IoEvent)
set_linked b p h = do n ← load p h; set_val p (record n.val { linked = b }) h

unfoldable pub add_event : Ptr → Circle → Option Circle
unfolding set_linked
add_event event c =
    if c.header == null
    then (do h ← set_linked true event c.heap; some (record c { heap = h; header = event }))
    else (do
      h ← set_next event c.header c.heap
      h ← set_prev c.header event h
      h ← set_linked true event h
      some (record c { heap = h; header = event }))

-- The first `if` of `remove_event`, and the halves of the second.
abbrev pub cursor_past : (event next cursor : Ptr) → Ptr
cursor_past event next cursor =
    if cursor == null then cursor else if cursor == event then next else cursor

unfoldable pub unlink_before : (prev next : Ptr) → Circle → Option Circle
unlink_before prev next c =
    if prev == null
    then some (record c { header = next })
    else (do h ← set_next prev next c.heap; some (record c { heap = h }))

-- The last lines of `remove_event`.
unfoldable pub clear_event : Ptr → Circle → Option Circle
unfolding set_linked
clear_event event c = do
  h ← set_prev event null c.heap
  h ← set_next event null h
  h ← set_linked false event h
  some (record c { heap = h })

unfoldable pub remove_event : Ptr → Circle → Option Circle
unfolding unlink_before clear_event
remove_event event c = do
  n ← load event c.heap
  c ← unlink_before n.prev n.next (record c { cursor = cursor_past event n.next c.cursor })
  n ← load event c.heap
  h ← link_back n.next n.prev c.heap
  clear_event event (record c { heap = h })
