-- ===== src/Circle/Tests.antt =====
-- Runs of the list of events, with three events of three connections.
use record_lib.Base.{
  ℕ, zero, suc, ◌≡◌, refl, true, false, Option, none, some, List, [], ◌∷◌, ◌==◌, if◌then◌else◌,
  ◌>>=◌, Returns, arith,
}
use record_lib.Links.{Ptr, null, node, Heap, load, modify, set_prev, set_next, set_val, link_back}
use record_lib.Links.Seg.{Cells, Seg}
use record_lib.Circle.{IoEvent, Circle, add_event, remove_event}
use record_lib.Circle.Traversal.{
  Answer, failure, retry, success, Connect, Loop, remove_events, connect_close, settle, turn,
  traverse, traversal,
}
use record_lib.Circle.Closes.{linked}
use record_lib.Circle.Inv.{IsEvents, IsOut}
use record_lib.Circle.Remove.{unlinked, Removed, remove_event-Removed, remove_event-unlinked}
use record_lib.Circle.Add.{Added, add_event-Added}
use record_lib.Circle.Walk.{at}

abbrev event : ℕ → IoEvent
event n = record { linked = true; connect = n }

-- The events 10, 20 and 30 are listed, and 40 is not.
abbrev heap : Heap IoEvent
heap a =
    if a == 10
    then some (node (event 1) 0 20)
    else if a == 20
    then some (node (event 2) 10 30)
    else if a == 30
    then some (node (event 3) 20 0)
    else if a == 40
    then some (node (unlinked (event 1)) 0 0)
    else none

abbrev circle : Circle
circle = record { heap = heap; header = 10; cursor = 0 }

abbrev cells : Cells IoEvent
cells = (10, event 1) ∷ (20, event 2) ∷ (30, event 3) ∷ []

circle-IsEvents : IsEvents circle cells
circle-IsEvents = record {
  chain = (omega arith, refl, (omega arith, refl, (omega arith, refl, tt)));
  distinct = (refl, (refl, (refl, tt)));
  head = refl;
  linked = (refl, (refl, (refl, tt)));
}

circle-IsOut : IsOut circle 40 (unlinked (event 1))
circle-IsOut = record { live = omega arith; at = refl }

remove_event-Removed_example :
    Returns
      (Removed ((10, event 1) ∷ []) 20 (event 2) ((30, event 3) ∷ []) circle)
      (remove_event 20 circle)
remove_event-Removed_example =
    remove_event-Removed ((10, event 1) ∷ []) 20 (event 2) ((30, event 3) ∷ []) circle-IsEvents

remove_event-unlinked_example :
    Returns (λ c'. IsEvents c' [] × Seg c'.heap null null cells) (remove_event 40 circle)
remove_event-unlinked_example = remove_event-unlinked circle-IsEvents circle-IsOut refl

add_event-Added_example : Returns (Added 40 (unlinked (event 1)) cells circle) (add_event 40 circle)
add_event-Added_example =
    add_event-Added 40 (unlinked (event 1)) cells circle-IsEvents circle-IsOut refl

abbrev loop : Loop (Unit {0})
loop = record {
  circle = circle;
  connects = λ a.
      if a == 1 then some (record { rdev = 10; wrev = 40; closed = false; pc = true }) else none;
  conns = 3;
  rest = tt;
}

abbrev keep : Ptr → Unit {0} → Unit {0}
keep p w = w

-- An event whose connection has the next event as its other one, and that fails; the last one is done
-- with.
abbrev fails_with_next : Ptr → Loop (Unit {0}) → Option (Answer × Loop (Unit {0}))
fails_with_next p s =
    let joined = (do
      n ← load p s.circle.heap
      let m : Connect = record { rdev = p; wrev = s.circle.cursor; closed = false; pc = true }
      let connects : Ptr → Option Connect = λ a. if a == n.val.connect then some m else s.connects a
      some (failure, record s { connects = connects })) in
    if s.circle.cursor == null then some (success, s) else joined

-- The addresses of the list.
abbrev addresses : ℕ → Ptr → Heap IoEvent → List Ptr
addresses zero p h = []
addresses (suc k) p h = elim (load p h) [ none ↦ [] | some n ↦ p ∷ addresses k n.next h ]

-- The event 10 takes the next one, 20, out; 30 is done with.
abbrev takes_next : Ptr → Loop (Unit {0}) → Option (Answer × Loop (Unit {0}))
takes_next p s =
    let next = s.circle.cursor in
    let taken = (do c ← remove_event next s.circle; some (retry, record s { circle = c })) in
    if next == null then some (success, s) else taken

-- What a traversal leaves: the cursor, and the addresses of the list.
abbrev left_over : Option (Loop (Unit {0})) → Option (List Ptr)
left_over r = do s ← r; some (s.circle.cursor ∷ addresses 4 s.circle.header s.circle.heap)

takes_next_test : left_over (traversal keep keep keep takes_next 4 loop) ≡ some (0 ∷ 10 ∷ [])
unfolding traversal traverse turn settle remove_event load modify set_prev set_next set_val
    link_back
takes_next_test = refl

-- The event 10 fails, and the others are kept. The close of its connection, whose other event 40 is
-- not linked, loses 20 and 30 from the list.
abbrev fails : Ptr → Loop (Unit {0}) → Option (Answer × Loop (Unit {0}))
fails p s = some (if p == 10 then failure else retry, s)

close_test : left_over (traversal keep keep keep fails 4 loop) ≡ some (0 ∷ [])
unfolding traversal traverse turn settle connect_close remove_events remove_event load modify
    set_prev set_next set_val link_back
close_test = refl
