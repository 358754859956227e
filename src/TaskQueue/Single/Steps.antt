-- ===== src/TaskQueue/Single/Steps.antt =====
-- Every step of the threads of the mode SINGLE keeps the invariant.
use mathlib.Core.Path.{subst}
use native.Mathlib.Nat.{mod-lt, add-mod_right}
use mathlib.Core.List.{append_assoc}
use record_lib.Base.{
  ℕ, suc, ◌+◌, ◌%◌, ◌<◌, ◌≡◌, ◌≢◌, refl, sym, ap, ◌∙◌, some, List, [], ◌∷◌, ◌++◌, arith, ◌==◌,
  u32_mod, length, length-append, get_elem?, set, length-set, get_elem?-set_self, Bool-cases, inl,
  inr,
}
use record_lib.TaskQueue.{TaskQueue, atomic_add}
use record_lib.TaskQueue.Inv.{Slots-set, Slots-front, Slots-snoc}
use record_lib.TaskQueue.Single.{
  Producer, Consumer, System, Step, load_wrindex, load_rdindex, full, write, publish, begin, look,
  empty, read, take_task, retry, update,
}
use record_lib.TaskQueue.Single.Inv.{
  ProducerOk, ConsumerOk, Held, Inv, is_full-false, is_empty-false, ConsumerOk-write,
  ConsumerOk-publish, ConsumerOk-take, ProducerOk-take,
}

-- The test for a full ring leaves one slot free at least.
free_slot : (n w r : ℕ) → (w + 1) % n ≢ r % n → w < r + n → suc w < r + n
free_slot n w r ne near = elim (Bool-cases (suc w == r + n)) [
  | inl e ↦
      let e' : w + 1 ≡ r + n = ground arith in absurd (ne (ap (λ k. k % n) e' ∙ add-mod_right r n))
  | inr e ↦ ground arith
]

module _ {E : Type 0} where
  update-Ok :
      (q : TaskQueue E) (f : ℕ → Consumer E) (i : ℕ) (c : Consumer E)
      → ConsumerOk q c
      → ((j : ℕ) → ConsumerOk q (f j))
      → (j : ℕ) → ConsumerOk q (update f i c j)
  update-Ok q f i c ok all j = elim (Bool-cases (j == i)) [ inl e ↦ rw e ok | inr e ↦ rw e (all j) ]

  write-Inv :
      {s : System E} (e : E) (w r : ℕ)
      → Inv s
      → s.producer ≡ Producer.has_rd e w r
      → (w + 1) % s.queue.size ≢ r % s.queue.size
      → Inv (record s {
        queue = record s.queue { elems = set s.queue.elems (w % s.queue.size) e };
        producer = Producer.wrote e;
      })
  write-Inv {s} e w r inv at ne =
      let (now, before, near) = subst (ProducerOk s.queue) at inv.producer in
      let held = inv.held in
      rw now (record {
        queued = inv.queued;
        held = record {
          positive = held.positive;
          array = held.array ∙ sym (length-set s.queue.elems (s.queue.wrindex % s.queue.size) e);
          tasks = Slots-front _ s.queue.size s.queue.rdindex inv.queued (e ∷ []) (
              Slots-set s.queue.elems s.queue.size s.queue.rdindex s.queue.wrindex inv.queued e
                held.written held.room (omega (arith, held.array)) held.tasks);
          written = held.written;
          room = held.room;
          small = held.small;
        };
        order = inv.order;
        count = inv.count;
        producer = (
          omega (
            arith,
            free_slot s.queue.size s.queue.wrindex r
                (λ e'. ne (ap (λ k. (k + 1) % s.queue.size) now ∙ e')) near,
          ),
          get_elem?-set_self s.queue.elems (s.queue.wrindex % s.queue.size) e
              (omega (arith, held.array, mod-lt s.queue.wrindex held.positive)),
        );
        consumers =
            λ i. ConsumerOk-write s.queue inv.queued e (s.consumers i) held (inv.consumers i);
      })

  publish-Inv :
      {s : System E} (e : E)
      → Inv s
      → s.producer ≡ Producer.wrote e
      → suc (length (s.sent ++ e ∷ [])) < u32_mod
      → Inv (record s {
        queue = record s.queue { wrindex = atomic_add s.queue.wrindex };
        producer = Producer.idle;
        sent = s.sent ++ e ∷ [];
      })
  publish-Inv {s} e inv at few =
      let (free, slot) = subst (ProducerOk s.queue) at inv.producer in
      let held = inv.held in
      let grown = length-append s.sent (e ∷ []) in
      let bumped : atomic_add s.queue.wrindex ≡ suc s.queue.wrindex = omega (arith, inv.count) in
      rw bumped (record {
        queued = inv.queued ++ e ∷ [];
        held = record {
          positive = held.positive;
          array = held.array;
          tasks =
              Slots-snoc s.queue.elems s.queue.size s.queue.rdindex s.queue.wrindex inv.queued e
                held.written held.tasks slot;
          written = omega (arith, held.written, length-append inv.queued (e ∷ []));
          room = omega (arith, held.written, length-append inv.queued (e ∷ []));
          small = omega (arith, inv.count);
        };
        order = ap (λ l. l ++ e ∷ []) inv.order ∙ append_assoc s.received inv.queued (e ∷ []);
        count = omega (arith, inv.count);
        producer = tt;
        consumers = λ i.
            ConsumerOk-publish s.queue (s.consumers i) (suc s.queue.wrindex) (omega arith)
              (inv.consumers i);
      })

  Held-task :
      (q : TaskQueue E) (x : E) (xs : List E)
      → Held q xs
      → q.rdindex < q.wrindex
      → get_elem? q.elems (q.rdindex % q.size) ≡ some x
      → (ys : List E) × (xs ≡ x ∷ ys) × Held (record q { rdindex = suc q.rdindex }) ys
  Held-task q x [] held more at = absurd (omega (arith, held.written))
  Held-task q x (y ∷ ys) held more at = (
    ys,
    let e : y ≡ x = cc (sym held.tasks.0 ∙ at) in ap (λ z. z ∷ ys) e,
    record {
      positive = held.positive;
      array = held.array;
      tasks = held.tasks.1;
      written = omega (arith, held.written);
      room = omega (arith, held.room);
      small = held.small;
    },
  )

  take-Inv :
      {s : System E} (i r : ℕ) (x : E)
      → Inv s
      → s.consumers i ≡ Consumer.has_elem r x
      → s.queue.rdindex ≡ r
      → Inv (record s {
        queue = record s.queue { rdindex = atomic_add r };
        consumers = update s.consumers i Consumer.idle;
        received = s.received ++ x ∷ [];
      })
  take-Inv {s} i r x inv at now =
      let (more, slot) = (subst (ConsumerOk s.queue) at (inv.consumers i)).1 (sym now) in
      let (ys, same, held) = Held-task s.queue x inv.queued inv.held more slot in
      let bumped : atomic_add r ≡ suc s.queue.rdindex = omega (arith, inv.held.small) in
      rw bumped (record {
        queued = ys;
        held = held;
        order =
            inv.order ∙ ap (λ l. s.received ++ l) same ∙ sym (append_assoc s.received (x ∷ []) ys);
        count = inv.count;
        producer = ProducerOk-take s.queue s.producer inv.producer;
        consumers =
            update-Ok (record s.queue { rdindex = suc s.queue.rdindex }) s.consumers i Consumer.idle
              tt (λ j. ConsumerOk-take s.queue (s.consumers j) (inv.consumers j));
      })

  -- A step of one consumer that leaves the queue alone.
  consumer-Inv :
      {s : System E} (i : ℕ) (c : Consumer E)
      → Inv s
      → ConsumerOk s.queue c
      → Inv (record s { consumers = update s.consumers i c })
  consumer-Inv {s} i c inv ok = record {
    queued = inv.queued;
    held = inv.held;
    order = inv.order;
    count = inv.count;
    producer = inv.producer;
    consumers = update-Ok s.queue s.consumers i c ok inv.consumers;
  }

  producer-Inv :
      {s : System E} (p : Producer E)
      → Inv s
      → ProducerOk s.queue p
      → Inv (record s { producer = p })
  producer-Inv p inv ok = record {
    queued = inv.queued;
    held = inv.held;
    order = inv.order;
    count = inv.count;
    producer = ok;
    consumers = inv.consumers;
  }

  pub Step-Inv : {s t : System E} → Step s t → suc (length t.sent) < u32_mod → Inv s → Inv t
  Step-Inv {s} (load_wrindex e at) few inv =
      producer-Inv (Producer.has_wr e s.queue.wrindex) inv refl
  Step-Inv {s} (load_rdindex e w at) few inv =
      let now = subst (ProducerOk s.queue) at inv.producer in
      let held = inv.held in
      producer-Inv (Producer.has_rd e w s.queue.rdindex) inv
        (now, omega arith, omega (arith, held.written, held.room))
  Step-Inv (full e w r at test) few inv = producer-Inv Producer.idle inv tt
  Step-Inv {s} (write e w r at test) few inv =
      let now = (subst (ProducerOk s.queue) at inv.producer).0 in
      write-Inv e w r inv at
        (is_full-false s.queue w r inv.held.positive (omega (arith, inv.count)) test)
  Step-Inv (publish e at) few inv = publish-Inv e inv at few
  Step-Inv {s} (begin i at) few inv =
      consumer-Inv i (Consumer.has_rd s.queue.rdindex) inv (omega arith)
  Step-Inv {s} (look i r at) few inv =
      let before = subst (ConsumerOk s.queue) at (inv.consumers i) in
      consumer-Inv i (Consumer.has_wr r s.queue.wrindex) inv (omega (arith, inv.held.written))
  Step-Inv (empty i r w at test) few inv = consumer-Inv i Consumer.idle inv tt
  Step-Inv {s} (read i r w x at test got) few inv =
      let (before, r_le, w_le) = subst (ConsumerOk s.queue) at (inv.consumers i) in
      let ne = is_empty-false s.queue w r inv.held.positive test in
      consumer-Inv i (Consumer.has_elem r x) inv (
        before,
        λ now. (omega arith, ap (λ k. get_elem? s.queue.elems (k % s.queue.size)) (sym now) ∙ got),
      )
  Step-Inv (take_task i r x at now) few inv = take-Inv i r x inv at now
  Step-Inv (retry i r x at ne) few inv = consumer-Inv i Consumer.idle inv tt
