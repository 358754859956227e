-- ===== src/TaskQueue/Multi/Unwritten.antt =====
-- `dequeue` in the mode MULTI: an interleaving in which it returns a slot that is claimed and not
-- yet written, since it compares with `m_wrindex` and not with `m_max_rdindex`.
use native.Mathlib.Nat.{mod-eq_of_lt, zero-mod}
use record_lib.Base.{
  ℕ, ◌<◌, ◌%◌, ◌≡◌, refl, false, some, [], ◌∷◌, arith, get_elem?, replicate, get_elem?-replicate,
}
use record_lib.TaskQueue.{is_empty, is_full, new_queue, queue_init}
use record_lib.TaskQueue.Inv.{rem-ok}
use record_lib.TaskQueue.Single.{Consumer}
use record_lib.TaskQueue.Multi.{
  Producer, System, load_wrindex, load_rdindex, claim, begin, look, read, take_task, update,
  produce, consume, start, Reach, here, next,
}

module _ {E : Type 0} (z e : E) (n : ℕ) (two : 1 < n) where
  -- A producer has claimed the first slot of a fresh queue.
  abbrev pub claimed_first : System E
  claimed_first = record (start z n) {
    queue = record (queue_init z n (new_queue z)) { wrindex = 1 };
    producers =
        update
          (update (update (λ _. Producer.idle) 0 (Producer.has_wr e 0)) 0 (Producer.has_rd e 0 0)) 0
          (Producer.claimed e 0);
    claims = 1;
  }

  not_full : is_full (queue_init z n (new_queue z)) 0 0 ≡ some false
  unfolding is_full queue_init new_queue
  not_full = rw (rem-ok 1 n (omega arith), rem-ok 0 n (omega arith), mod-eq_of_lt two, zero-mod)

  pub claimed_first_reached : Reach z n claimed_first
  unfolding queue_init new_queue
  claimed_first_reached =
      let r₁ =
        next {t = produce (start z n) 0 (Producer.has_wr e 0)} here (load_wrindex 0 e refl) in
      let r₂ =
        next {t = produce (produce (start z n) 0 (Producer.has_wr e 0)) 0 (Producer.has_rd e 0 0)}
          r₁ (load_rdindex 0 e 0 refl) in
      next r₂ (claim 0 e 0 0 refl not_full refl)

  abbrev looked : System E
  looked = consume (consume claimed_first 0 (Consumer.has_rd 0)) 0 (Consumer.has_wr 0 1)

  looked_reached : Reach z n looked
  unfolding queue_init new_queue
  looked_reached =
      next
        (next {t = consume claimed_first 0 (Consumer.has_rd 0)} claimed_first_reached
          (begin 0 refl))
        (look 0 0 refl)

  not_empty : is_empty claimed_first.queue 1 0 ≡ some false
  unfolding is_empty queue_init new_queue
  not_empty = rw (rem-ok 0 n (omega arith), rem-ok 1 n (omega arith), mod-eq_of_lt two, zero-mod)

  filled : get_elem? (replicate n z) (0 % n) ≡ some z
  filled = rw zero-mod (get_elem?-replicate n 0 z (omega arith))

  -- In the mode MULTI with more than one slot there is a reachable state in which no task has been
  -- stored and yet a dequeue has returned a task: the zero element of a slot that a producer has
  -- claimed and not written.
  pub dequeue_unwritten : (s : System E) × Reach z n s × (s.stored ≡ []) × (s.received ≡ z ∷ [])
  unfolding queue_init new_queue
  dequeue_unwritten = (
    record looked {
      queue = record looked.queue { rdindex = 1 };
      consumers = update (update looked.consumers 0 (Consumer.has_elem 0 z)) 0 Consumer.idle;
      received = z ∷ [];
    },
    next
        (next {t = consume looked 0 (Consumer.has_elem 0 z)} looked_reached
          (read 0 0 1 z refl not_empty filled))
        (take_task 0 0 z refl refl),
    refl,
    refl,
  )
