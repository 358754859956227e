-- ===== src/TaskQueue/Single.antt =====
-- The mode SINGLE of src/datas/task_queue.h as its threads run it: one producer in `enqueue` and
-- any number of consumers in `dequeue`, interleaved at each access to shared memory. `sent` and
-- `received` record the tasks in the order in which the calls took effect.
pub mod Inv
pub mod Steps
pub mod Fifo
use record_lib.Base.{
  ℕ, ◌+◌, ◌%◌, ◌≡◌, ◌≢◌, Bool, true, false, some, List, [], ◌∷◌, ◌++◌, ◌==◌, if◌then◌else◌,
  get_elem?, set,
}
use record_lib.TaskQueue.{TaskQueue, atomic_add, is_empty, is_full, new_queue, queue_init}

-- Where the producer stands, with its locals.
pub data Producer (E : Type 0) : Type 0 where
  idle : Producer E
  has_wr : (ele : E) (cur_wrindex : ℕ) → Producer E
  has_rd : (ele : E) (cur_wrindex cur_rdindex : ℕ) → Producer E
  wrote : (ele : E) → Producer E

-- Where a consumer stands: at the head of its loop, or inside a round.
pub data Consumer (E : Type 0) : Type 0 where
  idle : Consumer E
  has_rd : (cur_rdindex : ℕ) → Consumer E
  has_wr : (cur_rdindex cur_max_rdindex : ℕ) → Consumer E
  has_elem : (cur_rdindex : ℕ) (ele : E) → Consumer E

pub record System (E : Type 0) : Type 0 where
  pub queue : TaskQueue E
  pub producer : Producer E
  pub consumers : ℕ → Consumer E
  pub sent : List E
  pub received : List E

module _ {E : Type 0} where
  abbrev pub update : (ℕ → Consumer E) → ℕ → Consumer E → ℕ → Consumer E
  update f i c j = if j == i then c else f j

  abbrev pub at : System E → ℕ → Consumer E → System E
  at s i c = record s { consumers = update s.consumers i c }

  pub data Step (s : System E) : System E → Type 0 where
    load_wrindex :
        (ele : E)
        → s.producer ≡ Producer.idle
        → Step s (record s { producer = Producer.has_wr ele s.queue.wrindex })
    load_rdindex :
        (ele : E) (w : ℕ)
        → s.producer ≡ Producer.has_wr ele w
        → Step s (record s { producer = Producer.has_rd ele w s.queue.rdindex })
    full :
        (ele : E) (w r : ℕ)
        → s.producer ≡ Producer.has_rd ele w r
        → is_full s.queue w r ≡ some true
        → Step s (record s { producer = Producer.idle })
    write :
        (ele : E) (w r : ℕ)
        → s.producer ≡ Producer.has_rd ele w r
        → is_full s.queue w r ≡ some false
        → Step s (record s {
          queue = record s.queue { elems = set s.queue.elems (w % s.queue.size) ele };
          producer = Producer.wrote ele;
        })
    publish :
        (ele : E)
        → s.producer ≡ Producer.wrote ele
        → Step s (record s {
          queue = record s.queue { wrindex = atomic_add s.queue.wrindex };
          producer = Producer.idle;
          sent = s.sent ++ ele ∷ [];
        })
    begin :
        (i : ℕ) → s.consumers i ≡ Consumer.idle → Step s (at s i (Consumer.has_rd s.queue.rdindex))
    look :
        (i r : ℕ)
        → s.consumers i ≡ Consumer.has_rd r
        → Step s (at s i (Consumer.has_wr r s.queue.wrindex))
    empty :
        (i r w : ℕ)
        → s.consumers i ≡ Consumer.has_wr r w
        → is_empty s.queue w r ≡ some true
        → Step s (at s i Consumer.idle)
    read :
        (i r w : ℕ) (x : E)
        → s.consumers i ≡ Consumer.has_wr r w
        → is_empty s.queue w r ≡ some false
        → get_elem? s.queue.elems (r % s.queue.size) ≡ some x
        → Step s (at s i (Consumer.has_elem r x))
    take_task :
        (i r : ℕ) (x : E)
        → s.consumers i ≡ Consumer.has_elem r x
        → s.queue.rdindex ≡ r
        → Step s (record s {
          queue = record s.queue { rdindex = atomic_add r };
          consumers = update s.consumers i Consumer.idle;
          received = s.received ++ x ∷ [];
        })
    retry :
        (i r : ℕ) (x : E)
        → s.consumers i ≡ Consumer.has_elem r x
        → s.queue.rdindex ≢ r
        → Step s (at s i Consumer.idle)

  abbrev pub start : E → ℕ → System E
  start zero_elem size = record {
    queue = queue_init zero_elem size (new_queue zero_elem);
    producer = Producer.idle;
    consumers = λ _. Consumer.idle;
    sent = [];
    received = [];
  }

  pub data Reach (zero_elem : E) (size : ℕ) : System E → Type 0 where
    here : Reach zero_elem size (start zero_elem size)
    next : {s t : System E} → Reach zero_elem size s → Step s t → Reach zero_elem size t
