-- ===== src/Timer/Tests.antt =====
-- Runs of the timers, with three events.
use record_lib.Base.{
  ◌≡◌, refl, true, Option, none, some, [], ◌∷◌, ◌==◌, if◌then◌else◌, ◌>>=◌, Returns, arith,
}
use record_lib.Links.{Ptr}
use record_lib.RbTree.{Memory, put, replace, rotate}
use record_lib.RbTree.Search.{tree_minimum, tree_minimum_node, tree_minimum_key}
use record_lib.RbTree.Insert.{rb_insert}
use record_lib.RbTree.Delete.{rb_delete}
use record_lib.RbTree.Shape.{Tree, leaf, branch, rb}
use record_lib.RbTree.Found.{Holds}
use record_lib.Timer.{
  Timer, add_to_timer, remove_timer, pure_add_timer, pure_delete_timer, pure_find_timer, is_due,
  pure_timer_process, check_timeout,
}
use record_lib.Timer.Due.{Waits, pure_find_timer-Waits, pure_timer_process-waits}

-- The root 20 with the sons 10 and 30; the sentinel is 99.
abbrev memory : Memory
memory a =
    if a == 10
    then some (rb 20 99 99 1 1000 10)
    else if a == 20
    then some (rb 99 10 30 0 2000 20)
    else if a == 30
    then some (rb 20 99 99 1 3000 30)
    else if a == 99
    then some (rb 99 99 99 0 0 0)
    else none

abbrev timer : Timer
timer = record {
  this = 7;
  prbt = record { mem = memory; nil = 99; root = 20 };
  node_value = 0;
  events = λ a. some (record { is_inrbtree = true; ptt = 7 });
}

abbrev tree : Tree
tree = branch 20 0 2000 20 (branch 10 1 1000 10 leaf leaf) (branch 30 1 3000 30 leaf leaf)

timer-Holds : Holds timer.prbt tree
timer-Holds = record {
  root = refl;
  nodes = (refl, refl, (refl, refl, tt, tt), (refl, refl, tt, tt));
  ordered = omega arith;
}

pure_find_timer-Waits_example : Returns (Waits 400 tree timer) (pure_find_timer 4 400 timer)
pure_find_timer-Waits_example = pure_find_timer-Waits 4 400 timer tree timer-Holds (omega arith)

-- The handler of a connection's event: the time is 1500, and 1200 when it was active.
abbrev checks : Ptr → Timer → Option Timer
checks ev s = do (kept, s) ← check_timeout 10 1500 1200 ev s; some s

pure_timer_process-waits_example : pure_timer_process checks 1 4 400 timer ≡ some timer
pure_timer_process-waits_example =
    pure_timer_process-waits checks 0 4 400 timer tree (rb 99 99 99 0 0 0) timer-Holds (omega arith)
      refl (omega arith) (omega arith)

-- The event 10 is due and is added again; the next one is due in 500 milliseconds.
expires_test :
    (do
      s ← pure_timer_process checks 3 10 1500 timer
      (wait, s) ← pure_find_timer 10 1500 s
      n ← s.prbt.mem 10
      some (wait ∷ s.node_value ∷ n.key ∷ []))
    ≡ some (500 ∷ 2000 ∷ 31500 ∷ [])
unfolding pure_timer_process pure_find_timer check_timeout pure_add_timer pure_delete_timer
    add_to_timer remove_timer is_due rb_insert rb_delete tree_minimum_node tree_minimum_key
    tree_minimum put replace rotate
expires_test = refl

-- The difference is read as 32 bits with a sign: a time 2^31 milliseconds ahead counts as past.
far_test : is_due 2147483649 1 ≡ true
unfolding is_due
far_test = refl
