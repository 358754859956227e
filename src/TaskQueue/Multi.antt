-- ===== src/TaskQueue/Multi.antt =====
-- The mode MULTI of src/datas/task_queue.h as its threads run it: any number of producers in
-- `enqueue` and of consumers in `dequeue`, interleaved at each access to shared memory. `claims`
-- counts the slots that were claimed, `stored` and `received` record the tasks that were written
-- to a slot and that a `dequeue` returned.
pub mod Claims
pub mod Unwritten
use record_lib.Base.{
  ℕ, suc, ◌+◌, ◌%◌, ◌≡◌, ◌≢◌, Bool, true, false, some, List, [], ◌∷◌, ◌++◌, ◌==◌, if◌then◌else◌,
  get_elem?, set,
}
use record_lib.TaskQueue.{TaskQueue, atomic_add, is_empty, is_full, new_queue, queue_init}
use record_lib.TaskQueue.Single.{Consumer}

pub data Producer (E : Type 0) : Type 0 where
  idle : Producer E
  has_wr : (ele : E) (cur_wrindex : ℕ) → Producer E
  has_rd : (ele : E) (cur_wrindex cur_rdindex : ℕ) → Producer E
  claimed : (ele : E) (cur_wrindex : ℕ) → Producer E
  wrote : (cur_wrindex : ℕ) → Producer E

pub record System (E : Type 0) : Type 0 where
  pub queue : TaskQueue E
  pub producers : ℕ → Producer E
  pub consumers : ℕ → Consumer E
  pub claims : ℕ
  pub stored : List E
  pub received : List E

abbrev pub update : {A : Type 0} → (ℕ → A) → ℕ → A → ℕ → A
update f i c j = if j == i then c else f j

module _ {E : Type 0} where
  abbrev pub produce : System E → ℕ → Producer E → System E
  produce s i p = record s { producers = update s.producers i p }

  abbrev pub consume : System E → ℕ → Consumer E → System E
  consume s i c = record s { consumers = update s.consumers i c }

  pub data Step (s : System E) : System E → Type 0 where
    load_wrindex :
        (i : ℕ) (ele : E)
        → s.producers i ≡ Producer.idle
        → Step s (produce s i (Producer.has_wr ele s.queue.wrindex))
    load_rdindex :
        (i : ℕ) (ele : E) (w : ℕ)
        → s.producers i ≡ Producer.has_wr ele w
        → Step s (produce s i (Producer.has_rd ele w s.queue.rdindex))
    full :
        (i : ℕ) (ele : E) (w r : ℕ)
        → s.producers i ≡ Producer.has_rd ele w r
        → is_full s.queue w r ≡ some true
        → Step s (produce s i Producer.idle)
    claim :
        (i : ℕ) (ele : E) (w r : ℕ)
        → s.producers i ≡ Producer.has_rd ele w r
        → is_full s.queue w r ≡ some false
        → s.queue.wrindex ≡ w
        → Step s (record s {
          queue = record s.queue { wrindex = atomic_add w };
          producers = update s.producers i (Producer.claimed ele w);
          claims = suc s.claims;
        })
    claim_again :
        (i : ℕ) (ele : E) (w r : ℕ)
        → s.producers i ≡ Producer.has_rd ele w r
        → is_full s.queue w r ≡ some false
        → s.queue.wrindex ≢ w
        → Step s (produce s i (Producer.has_wr ele s.queue.wrindex))
    write :
        (i : ℕ) (ele : E) (w : ℕ)
        → s.producers i ≡ Producer.claimed ele w
        → Step s (record s {
          queue = record s.queue { elems = set s.queue.elems (w % s.queue.size) ele };
          producers = update s.producers i (Producer.wrote w);
          stored = s.stored ++ ele ∷ [];
        })
    publish :
        (i w : ℕ)
        → s.producers i ≡ Producer.wrote w
        → s.queue.max_rdindex ≡ w
        → Step s (record s {
          queue = record s.queue { max_rdindex = atomic_add w };
          producers = update s.producers i Producer.idle;
        })
    wait : (i w : ℕ) → s.producers i ≡ Producer.wrote w → s.queue.max_rdindex ≢ w → Step s s
    begin :
        (i : ℕ)
        → s.consumers i ≡ Consumer.idle
        → Step s (consume s i (Consumer.has_rd s.queue.rdindex))
    look :
        (i r : ℕ)
        → s.consumers i ≡ Consumer.has_rd r
        → Step s (consume s i (Consumer.has_wr r s.queue.wrindex))
    empty :
        (i r w : ℕ)
        → s.consumers i ≡ Consumer.has_wr r w
        → is_empty s.queue w r ≡ some true
        → Step s (consume s i Consumer.idle)
    read :
        (i r w : ℕ) (x : E)
        → s.consumers i ≡ Consumer.has_wr r w
        → is_empty s.queue w r ≡ some false
        → get_elem? s.queue.elems (r % s.queue.size) ≡ some x
        → Step s (consume s i (Consumer.has_elem r x))
    take_task :
        (i r : ℕ) (x : E)
        → s.consumers i ≡ Consumer.has_elem r x
        → s.queue.rdindex ≡ r
        → Step s (record s {
          queue = record s.queue { rdindex = atomic_add r };
          consumers = update s.consumers i Consumer.idle;
          received = s.received ++ x ∷ [];
        })
    retry :
        (i r : ℕ) (x : E)
        → s.consumers i ≡ Consumer.has_elem r x
        → s.queue.rdindex ≢ r
        → Step s (consume s i Consumer.idle)

  abbrev pub start : E → ℕ → System E
  start zero_elem size = record {
    queue = queue_init zero_elem size (new_queue zero_elem);
    producers = λ _. Producer.idle;
    consumers = λ _. Consumer.idle;
    claims = 0;
    stored = [];
    received = [];
  }

  pub data Reach (zero_elem : E) (size : ℕ) : System E → Type 0 where
    here : Reach zero_elem size (start zero_elem size)
    next : {s t : System E} → Reach zero_elem size s → Step s t → Reach zero_elem size t
