-- ===== src/TaskQueue/Tests.antt =====
-- Runs of the ring, and its theorems at small queues.
use Prim.Native.Nat.{◌∣◌}
use native.Mathlib.Nat.{dvd_of_mod-eq-zero}
use record_lib.Base.{
  ℕ, ◌<◌, ◌≡◌, refl, true, false, some, List, [], ◌∷◌, ◌++◌, arith, u32_mod, length,
}
use record_lib.TaskQueue.{TaskQueue, new_queue, queue_init, is_full, enqueue_single, dequeue}
use record_lib.TaskQueue.Inv.{IsQueue}
use record_lib.TaskQueue.Spec.{Op, put, get, stored, fetched, nothing, run_spec, run_ring}
use record_lib.TaskQueue.Refine.{run_ring-run_spec}
use record_lib.TaskQueue.Single
use record_lib.TaskQueue.Single.Fifo.{Reach-fifo}
use record_lib.TaskQueue.Multi
use record_lib.TaskQueue.Multi.Claims.{Reach-unique}
use record_lib.TaskQueue.Multi.Unwritten.{dequeue_unwritten, claimed_first_reached}

-- Four slots, after four tasks have passed and a fifth waits.
abbrev second_lap : TaskQueue ℕ
second_lap = record {
  rdindex = 4;
  wrindex = 5;
  max_rdindex = 5;
  size = 4;
  cursize = 0;
  elems = 7 ∷ 2 ∷ 3 ∷ 4 ∷ [];
}

four_divides : 4 ∣ u32_mod
four_divides = dvd_of_mod-eq-zero 4 refl

eight_divides : 8 ∣ u32_mod
eight_divides = dvd_of_mod-eq-zero 8 refl

second_lap-IsQueue : IsQueue second_lap (7 ∷ [])
second_lap-IsQueue = record {
  start = 4;
  read = refl;
  written = refl;
  room = omega arith;
  round = four_divides;
  array = refl;
  tasks = (refl, tt);
}

-- One task in the first slot.
abbrev first_lap : TaskQueue ℕ
first_lap = record second_lap { rdindex = 0; wrindex = 1; max_rdindex = 1 }

first_lap-IsQueue : IsQueue first_lap (7 ∷ [])
first_lap-IsQueue = record {
  start = 0;
  read = refl;
  written = refl;
  room = omega arith;
  round = four_divides;
  array = refl;
  tasks = (refl, tt);
}

abbrev script : List (Op ℕ)
script = put 1 ∷ put 2 ∷ put 3 ∷ get ∷ get ∷ get ∷ get ∷ []

script_runs :
    run_ring 0 second_lap script
    ≡ some (
        stored true ∷ stored true ∷ stored false ∷ fetched 7 ∷ fetched 1 ∷ fetched 2 ∷ nothing ∷ [])
unfolding run_ring enqueue_single dequeue
script_runs = refl

run_ring-run_spec_example : run_ring 0 second_lap script ≡ some (run_spec 4 0 (7 ∷ []) script)
run_ring-run_spec_example = run_ring-run_spec 0 script second_lap-IsQueue

-- The producer stores 9 in a fresh ring of two slots.
abbrev one_sent : Single.System ℕ
one_sent = record (Single.start 0 2) {
  queue = record {
    rdindex = 0;
    wrindex = 1;
    max_rdindex = 0;
    size = 2;
    cursize = 0;
    elems = 9 ∷ 0 ∷ [];
  };
  sent = 9 ∷ [];
}

one_sent_reached : Single.Reach 0 2 one_sent
unfolding queue_init new_queue is_full
one_sent_reached =
    Single.next
      (Single.next
        (Single.next (Single.next Single.here (Single.load_wrindex 9 refl))
          (Single.load_rdindex 9 0 refl))
        (Single.write 9 0 0 refl refl))
      (Single.publish 9 refl)

Reach-fifo_example : (waiting : List ℕ) × (9 ∷ [] ≡ [] ++ waiting) × (length waiting < 2)
Reach-fifo_example = Reach-fifo (omega arith) one_sent_reached (omega arith)

Reach-unique_example : (◌≡◌ {A = ℕ} 0 0) × (0 < 1)
Reach-unique_example =
    Reach-unique {E = ℕ} 0 0 0 (claimed_first_reached 0 9 2 (omega arith)) (omega arith) refl refl

dequeue_unwritten_example :
    (s : Multi.System ℕ) × Multi.Reach 0 2 s × (s.stored ≡ []) × (s.received ≡ 0 ∷ [])
dequeue_unwritten_example = dequeue_unwritten 0 9 2 (omega arith)
