-- ===== src/TaskQueue/Single/Fifo.antt =====
-- The tasks of the mode SINGLE pass in the order in which they were sent.
use record_lib.Base.{
  ℕ, suc, ◌<◌, ◌≤◌, ◌≡◌, refl, sym, List, [], ◌∷◌, ◌++◌, arith, u32_mod, length, length-append,
  length-replicate,
}
use record_lib.TaskQueue.{new_queue, queue_init}
use record_lib.TaskQueue.Single.{System, Step, publish, start, Reach, here, next}
use record_lib.TaskQueue.Single.Inv.{Inv}
use record_lib.TaskQueue.Single.Steps.{Step-Inv}

module _ {E : Type 0} where
  sent_grows : {s t : System E} → Step s t → length s.sent ≤ length t.sent
  sent_grows {s} (publish e at) = omega (arith, length-append s.sent (e ∷ []))
  sent_grows _ = omega arith

  start-Inv : (z : E) (n : ℕ) → 0 < n → Inv (start z n)
  unfolding queue_init new_queue
  start-Inv z n pos = record {
    queued = [];
    held = record {
      positive = pos;
      array = sym (length-replicate n z);
      tasks = tt;
      written = refl;
      room = pos;
      small = omega arith;
    };
    order = refl;
    count = refl;
    producer = tt;
    consumers = λ i. tt;
  }

  Reach-Inv :
      {z : E} {n : ℕ} {s : System E} → 0 < n → Reach z n s → suc (length s.sent) < u32_mod → Inv s
  Reach-Inv {z} {n} pos here few = start-Inv z n pos
  Reach-Inv pos (next {s} {t} r step) few =
      Step-Inv step few (Reach-Inv pos r (omega (arith, sent_grows step)))

  -- In every state that one producer and any number of consumers of the mode SINGLE reach from a
  -- fresh queue with at least one slot, at any interleaving of their accesses to shared memory,
  -- the tasks that were enqueued are the tasks that were dequeued, in the same order and each
  -- once, followed by the tasks that still wait; those are fewer than the slots. It holds as long
  -- as fewer than 2^32 - 1 tasks were enqueued, so that the counters have not wrapped.
  pub Reach-fifo :
      {z : E} {n : ℕ} {s : System E}
      → 0 < n
      → Reach z n s
      → suc (length s.sent) < u32_mod
      → (waiting : List E) × (s.sent ≡ s.received ++ waiting) × (length waiting < s.queue.size)
  Reach-fifo pos r few = let inv = Reach-Inv pos r few in (inv.queued, inv.order, inv.held.room)
