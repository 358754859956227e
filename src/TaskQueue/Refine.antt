-- ===== src/TaskQueue/Refine.antt =====
-- The methods of `CTask_queue` run by one thread implement the bounded queue.
use Prim.Native.Nat.{◌∣◌}
use native.Mathlib.Nat.{mod-add-mod}
use record_lib.Base.{
  ℕ, zero, suc, ◌+◌, ◌%◌, ◌<◌, ◌≡◌, ◌≢◌, refl, sym, ap, ◌∙◌, Bool, true, some, List, [], ◌∷◌, ◌++◌,
  arith, ◌==◌, u32_mod, length, length-append, set, length-set, length-replicate, Returns, returns,
  Bool-cases, inl, inr, eq_refl, suc-ne-zero, returned,
}
use record_lib.TaskQueue.{TaskQueue, new_queue, queue_init, enqueue_single, enqueue_multi, dequeue}
use record_lib.TaskQueue.Inv.{
  rem-ok, Slots-set, IsQueue, read_slot, write_slot, is_full-IsQueue, is_empty-IsQueue,
}
use record_lib.TaskQueue.Spec.{Op, put, get, push, pop, run_spec, run_ring}

module _ {E : Type 0} where
  -- After queue_init with a positive size that divides 2^32, a new queue is a ring that holds no
  -- task.
  pub queue_init-IsQueue :
      (z : E) (n : ℕ) → 0 < n → n ∣ u32_mod → IsQueue (queue_init z n (new_queue z)) []
  unfolding queue_init new_queue
  queue_init-IsQueue z n pos round = record {
    start = 0;
    read = refl;
    written = refl;
    room = pos;
    round = round;
    array = sym (length-replicate n z);
    tasks = tt;
  }

  -- A call's answer and the queue after it, as the specification has them.
  abbrev pub Answers : ℕ → Bool × List E → Bool × TaskQueue E → Type 0
  Answers size (done, ys) (done', q) = (done' ≡ done) × IsQueue q ys × (q.size ≡ size)

  stored-IsQueue :
      {q : TaskQueue E} {xs : List E} (x : E)
      → IsQueue q xs
      → suc (length xs) ≢ q.size
      → IsQueue
          (record q {
            elems = set q.elems (q.wrindex % q.size) x;
            wrindex = (q.wrindex + 1) % u32_mod;
          })
          (xs ++ x ∷ [])
  stored-IsQueue {q} {xs} x is free = record {
    start = start;
    read = is.read;
    written =
        ap (λ k. (k + 1) % u32_mod) is.written
        ∙ mod-add-mod (start + length xs) u32_mod 1
        ∙ ap (λ k. k % u32_mod) (omega (arith, length-append xs (x ∷ [])));
    room = omega (arith, length-append xs (x ∷ []), is.room);
    round = is.round;
    array = is.array ∙ sym (length-set q.elems (q.wrindex % q.size) x);
    tasks = rw (write_slot is) (
        Slots-set q.elems q.size start (start + length xs) xs x refl is.room
          (omega (arith, is.array)) is.tasks);
  }
    where
      open is use {start}

  -- On a ring that holds a list of tasks, enqueue of the mode SINGLE answers false and keeps the
  -- tasks when only one slot is free, and else answers true and puts the task behind the others;
  -- the size stays.
  pub enqueue_single-push :
      {q : TaskQueue E} {xs : List E} (x : E)
      → IsQueue q xs
      → Returns (Answers q.size (push q.size xs x)) (enqueue_single x q)
  unfolding enqueue_single
  enqueue_single-push {q} {xs} x is =
      rw (is_full-IsQueue is) (elim (Bool-cases (suc (length xs) == q.size)) [
        | inl full ↦ rw full (returns (refl, is, refl))
        | inr free ↦
            rw (free, rem-ok q.wrindex q.size (omega (arith, is.room)))
              (returns (refl, stored-IsQueue x is (ground arith), refl))
      ])

  abbrev pub Fetches : ℕ → Bool × E × List E → Bool × E × TaskQueue E → Type 0
  Fetches size (done, x, ys) (done', x', q) =
      (done' ≡ done) × (x' ≡ x) × IsQueue q ys × (q.size ≡ size)

  fetched-IsQueue :
      {q : TaskQueue E} (x : E) (xs : List E)
      → IsQueue q (x ∷ xs)
      → IsQueue (record q { rdindex = (q.rdindex + 1) % u32_mod }) xs
  fetched-IsQueue {q} x xs is = record {
    start = suc start;
    read =
        ap (λ k. (k + 1) % u32_mod) is.read
        ∙ mod-add-mod start u32_mod 1
        ∙ ap (λ k. k % u32_mod) (omega arith);
    written = is.written ∙ ap (λ k. k % u32_mod) (omega arith);
    room = omega (arith, is.room);
    round = is.round;
    array = is.array;
    tasks = is.tasks.1;
  }
    where
      open is use {start}

  -- Run by one thread with fuel on a ring that holds a list of tasks, dequeue returns: it answers
  -- false and keeps the caller's variable when there is no task, and else answers true with the
  -- first task and leaves the others; the size stays.
  pub dequeue-pop :
      (fuel : ℕ) {q : TaskQueue E} {xs : List E} (ele : E)
      → IsQueue q xs
      → 0 < fuel
      → Returns (Fetches q.size (pop ele xs)) (dequeue fuel ele q)
  unfolding dequeue
  dequeue-pop zero ele is some_fuel = absurd (omega arith)
  dequeue-pop (suc k) {xs = []} ele is some_fuel =
      rw (is_empty-IsQueue is) (returns (refl, refl, is, refl))
  dequeue-pop (suc k) {q} {xs = x ∷ xs} ele is some_fuel =
      rw
        (
          is_empty-IsQueue is,
          suc-ne-zero (length xs),
          rem-ok q.rdindex q.size (omega (arith, is.room)),
          read_slot is,
          is.tasks.0,
          eq_refl q.rdindex,
        )
        (returns (refl, refl, fetched-IsQueue x xs is, refl))

  published :
      {q : TaskQueue E} {xs : List E} (m : ℕ)
      → IsQueue q xs
      → IsQueue (record q { max_rdindex = m }) xs
  published m is = record {
    start = is.start;
    read = is.read;
    written = is.written;
    room = is.room;
    round = is.round;
    array = is.array;
    tasks = is.tasks;
  }

  -- Run by one thread with fuel on a ring of the mode MULTI that holds a list of tasks and has no
  -- claim pending, enqueue returns, answers as the bounded queue does and leaves a ring that holds
  -- its tasks, with no claim pending.
  pub enqueue_multi-push :
      (fuel : ℕ) {q : TaskQueue E} {xs : List E} (x : E)
      → IsQueue q xs
      → q.max_rdindex ≡ q.wrindex
      → 0 < fuel
      → Returns
          (λ (done, q').
            Answers q.size (push q.size xs x) (done, q') × (q'.max_rdindex ≡ q'.wrindex))
          (enqueue_multi fuel x q)
  unfolding enqueue_multi
  enqueue_multi-push zero x is all some_fuel = absurd (omega arith)
  enqueue_multi-push (suc k) {q} {xs} x is all some_fuel =
      rw (is_full-IsQueue is) (elim (Bool-cases (suc (length xs) == q.size)) [
        | inl full ↦ rw full (returns ((refl, is, refl), all))
        | inr free ↦
            let same : (q.max_rdindex == q.wrindex) ≡ true = ground arith in
            rw (free, eq_refl q.wrindex, rem-ok q.wrindex q.size (omega (arith, is.room)), same)
              (returns (
                (
                  refl,
                  published ((q.wrindex + 1) % u32_mod) (stored-IsQueue x is (ground arith)),
                  refl,
                ),
                refl,
              ))
      ])

  -- Every sequence of calls of enqueue (mode SINGLE) and dequeue by one thread, on a ring that
  -- holds a list of tasks (IsQueue: the size divides 2^32), runs without a fault and gives the
  -- replies of the bounded first-in first-out queue of size - 1 places.
  pub run_ring-run_spec :
      (ele : E) (ops : List (Op E)) {q : TaskQueue E} {xs : List E}
      → IsQueue q xs
      → run_ring ele q ops ≡ some (run_spec q.size ele xs ops)
  unfolding run_ring run_spec
  run_ring-run_spec ele [] is = refl
  run_ring-run_spec ele (put x ∷ ops) is =
      let (r, e, answer) = returned (enqueue_single-push x is) in
      rw (e, run_ring-run_spec ele ops answer.1, answer.0, answer.2)
  run_ring-run_spec ele (get ∷ ops) is =
      let (r, e, answer) = returned (dequeue-pop 1 ele is (omega arith)) in
      rw (e, run_ring-run_spec ele ops answer.2, answer.0, answer.1, answer.3)
