-- ===== src/TaskQueue/Spec.antt =====
-- The bounded first-in first-out queue that src/datas/task_queue.h promises, and a client's calls.
-- One slot of the array always stays free, so a queue of `size` slots holds `size - 1` tasks.
use record_lib.Base.{
  ℕ, suc, Bool, true, false, Option, some, List, [], ◌∷◌, ◌++◌, ◌==◌, if◌then◌else◌, length, ◌>>=◌,
}
use record_lib.TaskQueue.{TaskQueue, enqueue_single, dequeue}

pub data Op (E : Type 0) : Type 0 where
  put : E → Op E
  get : Op E

-- What a call answers: whether it succeeded, and the task that was fetched.
pub data Reply (E : Type 0) : Type 0 where
  stored : Bool → Reply E
  fetched : E → Reply E
  nothing : Reply E

module _ {E : Type 0} where
  abbrev pub push : ℕ → List E → E → Bool × List E
  push size xs x = if suc (length xs) == size then (false, xs) else (true, xs ++ x ∷ [])

  -- The caller's variable keeps its value when there is no task.
  abbrev pub pop : E → List E → Bool × E × List E
  pop ele [] = (false, ele, [])
  pop ele (x ∷ xs) = (true, x, xs)

  unfoldable pub run_spec : ℕ → E → List E → List (Op E) → List (Reply E)
  run_spec size ele xs [] = []
  run_spec size ele xs (put x ∷ ops) =
      let (done, ys) = push size xs x in stored done ∷ run_spec size ele ys ops
  run_spec size ele xs (get ∷ ops) =
      let (done, x, ys) = pop ele xs in
      (if done then fetched x else nothing) ∷ run_spec size ele ys ops

  -- The same calls on the ring of mode SINGLE.
  unfoldable pub run_ring : E → TaskQueue E → List (Op E) → Option (List (Reply E))
  run_ring ele q [] = some []
  run_ring ele q (put x ∷ ops) = do
    (done, q) ← enqueue_single x q
    rest ← run_ring ele q ops
    some (stored done ∷ rest)
  run_ring ele q (get ∷ ops) = do
    (done, x, q) ← dequeue 1 ele q
    rest ← run_ring ele q ops
    some ((if done then fetched x else nothing) ∷ rest)
