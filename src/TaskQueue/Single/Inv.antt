-- ===== src/TaskQueue/Single/Inv.antt =====
-- What holds between the steps of the producer and the consumers, below 2 ^ 32 tasks.
use native.Mathlib.Nat.{mod-eq_of_lt}
use record_lib.Base.{
  ℕ, suc, ◌+◌, ◌%◌, ◌<◌, ◌≤◌, ◌≡◌, ◌≢◌, ◌∙◌, false, some, List, ◌++◌, arith, u32_mod, length,
  get_elem?, set, get_elem?-set_ne,
}
use record_lib.TaskQueue.{TaskQueue, is_empty, is_full}
use record_lib.TaskQueue.Inv.{slots_ne, rem-ok, Slots}
use record_lib.TaskQueue.Single.{Producer, Consumer, System}

module _ {E : Type 0} where
  -- What the locals of the producer say of the queue.
  abbrev pub ProducerOk : TaskQueue E → Producer E → Type 0
  ProducerOk q Producer.idle = Unit
  ProducerOk q (Producer.has_wr e w) = w ≡ q.wrindex
  ProducerOk q (Producer.has_rd e w r) =
      (w ≡ q.wrindex) × (r ≤ q.rdindex) × (q.wrindex < r + q.size)
  ProducerOk q (Producer.wrote e) =
      (suc q.wrindex < q.rdindex + q.size) × (get_elem? q.elems (q.wrindex % q.size) ≡ some e)

  -- What the locals of a consumer say of it. Its copy of a task counts if its index is current.
  abbrev pub ConsumerOk : TaskQueue E → Consumer E → Type 0
  ConsumerOk q Consumer.idle = Unit
  ConsumerOk q (Consumer.has_rd r) = r ≤ q.rdindex
  ConsumerOk q (Consumer.has_wr r w) = (r ≤ q.rdindex) × (r ≤ w) × (w ≤ q.wrindex)
  ConsumerOk q (Consumer.has_elem r x) =
      (r ≤ q.rdindex)
      × (r ≡ q.rdindex
          → (q.rdindex < q.wrindex) × (get_elem? q.elems (q.rdindex % q.size) ≡ some x))

  -- The queue holds the tasks that were sent and not yet received.
  pub record Held (q : TaskQueue E) (xs : List E) : Type 0 where
    pub positive : 0 < q.size
    pub array : q.size ≡ length q.elems
    pub tasks : Slots q.elems q.size q.rdindex xs
    pub written : q.wrindex ≡ q.rdindex + length xs
    pub room : length xs < q.size
    pub small : q.wrindex < u32_mod

  pub is_full-false :
      (q : TaskQueue E) (w r : ℕ)
      → 0 < q.size
      → w + 1 < u32_mod
      → is_full q w r ≡ some false
      → (w + 1) % q.size ≢ r % q.size
  unfolding is_full
  is_full-false q w r pos small e same =
      let e₁ = rem-ok ((w + 1) % u32_mod) q.size pos in
      let e₂ = rem-ok r q.size pos in
      let e₃ : (w + 1) % u32_mod ≡ w + 1 = mod-eq_of_lt small in ground (arith, e₁, e₂, e₃)

  pub is_empty-false :
      (q : TaskQueue E) (w r : ℕ) → 0 < q.size → is_empty q w r ≡ some false → w ≢ r
  unfolding is_empty
  is_empty-false q w r pos e same =
      let e₁ = rem-ok w q.size pos in let e₂ = rem-ok r q.size pos in ground (arith, e₁, e₂)

  -- A write to the free slot leaves the consumers' copies alone.
  pub ConsumerOk-write :
      (q : TaskQueue E) (xs : List E) (e : E) (c : Consumer E)
      → Held q xs
      → ConsumerOk q c
      → ConsumerOk (record q { elems = set q.elems (q.wrindex % q.size) e }) c
  ConsumerOk-write q xs e Consumer.idle held ok = tt
  ConsumerOk-write q xs e (Consumer.has_rd r) held ok = ok
  ConsumerOk-write q xs e (Consumer.has_wr r w) held ok = ok
  ConsumerOk-write q xs e (Consumer.has_elem r x) held ok = (
    ok.0,
    λ now.
        let (more, at) = ok.1 now in
        (
          more,
          get_elem?-set_ne q.elems (q.wrindex % q.size) (q.rdindex % q.size) e (
                slots_ne q.size q.rdindex q.wrindex (length xs) held.written
                  (omega (arith, held.written)) held.room)
              ∙ at,
        ),
  )

  pub ConsumerOk-publish :
      (q : TaskQueue E) (c : Consumer E) (w : ℕ)
      → q.wrindex ≤ w
      → ConsumerOk q c
      → ConsumerOk (record q { wrindex = w }) c
  ConsumerOk-publish q Consumer.idle w le ok = tt
  ConsumerOk-publish q (Consumer.has_rd r) w le ok = ok
  ConsumerOk-publish q (Consumer.has_wr r v) w le ok = omega arith
  ConsumerOk-publish q (Consumer.has_elem r x) w le ok =
      (ok.0, λ now. let (more, at) = ok.1 now in (omega arith, at))

  pub ConsumerOk-take :
      (q : TaskQueue E) (c : Consumer E)
      → ConsumerOk q c
      → ConsumerOk (record q { rdindex = suc q.rdindex }) c
  ConsumerOk-take q Consumer.idle ok = tt
  ConsumerOk-take q (Consumer.has_rd r) ok = omega arith
  ConsumerOk-take q (Consumer.has_wr r v) ok = omega arith
  ConsumerOk-take q (Consumer.has_elem r x) ok =
      (omega (arith, ok.0), λ now. absurd (omega (arith, ok.0)))

  pub ProducerOk-take :
      (q : TaskQueue E) (p : Producer E)
      → ProducerOk q p
      → ProducerOk (record q { rdindex = suc q.rdindex }) p
  ProducerOk-take q Producer.idle ok = tt
  ProducerOk-take q (Producer.has_wr e w) ok = ok
  ProducerOk-take q (Producer.has_rd e w r) ok = omega arith
  ProducerOk-take q (Producer.wrote e) ok = (omega (arith, ok.0), ok.1)

  pub record Inv (s : System E) : Type 0 where
    pub queued : List E
    pub held : Held s.queue queued
    pub order : s.sent ≡ s.received ++ queued
    pub count : s.queue.wrindex ≡ length s.sent
    pub producer : ProducerOk s.queue s.producer
    pub consumers : (i : ℕ) → ConsumerOk s.queue (s.consumers i)
