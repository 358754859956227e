-- ===== src/TaskQueue/Multi/Claims.antt =====
-- The claims of the producers of the mode MULTI, and what `dequeue` does with a claimed slot.
use record_lib.Base.{ℕ, suc, ◌<◌, ◌≤◌, ◌≡◌, refl, ap, ◌∙◌, Option, none, some, arith, u32_mod}
use record_lib.TaskQueue.{atomic_add, new_queue, queue_init}
use record_lib.TaskQueue.Multi.{
  Producer, System, Step, load_wrindex, load_rdindex, full, claim, claim_again, write, publish,
  wait, begin, look, empty, read, take_task, retry, update, Reach, here, next,
}

module _ {E : Type 0} where
  -- The index that a producer has claimed and not yet published.
  abbrev pub holding : Producer E → Option ℕ
  holding (Producer.claimed ele w) = some w
  holding (Producer.wrote w) = some w
  holding _ = none

  record Claims (wrindex claims : ℕ) (producers : ℕ → Producer E) : Type 0 where
    counted : wrindex ≡ claims
    below : (i w : ℕ) → holding (producers i) ≡ some w → w < claims
    unique : (i j w : ℕ) → holding (producers i) ≡ some w → holding (producers j) ≡ some w → i ≡ j

  -- A producer that claims nothing new keeps the claims apart.
  quiet-Claims :
      {k n : ℕ} {f : ℕ → Producer E} (i : ℕ) (p : Producer E)
      → Claims k n f
      → ((w : ℕ) → holding p ≡ some w → holding (f i) ≡ some w)
      → Claims k n (update f i p)
  quiet-Claims i p c keep = record {
    counted = c.counted;
    below = λ j w h. ground (arith, c.below j w, keep w);
    unique = λ j k w h h'. ground (arith, c.unique j k w, keep w);
  }

  claim-Claims :
      {k n : ℕ} {f : ℕ → Producer E} (i w : ℕ) (ele : E)
      → Claims k n f
      → k ≡ w
      → suc n < u32_mod
      → Claims (atomic_add w) (suc n) (update f i (Producer.claimed ele w))
  claim-Claims i w ele c won few = record {
    counted = ground (arith, c.counted);
    below = λ j v h. ground (arith, c.below j v, c.counted);
    unique = λ j k v h h'. ground (arith, c.unique j k v, c.below j v, c.below k v, c.counted);
  }

  abbrev SystemClaims : System E → Type 0
  SystemClaims s = Claims s.queue.wrindex s.claims s.producers

  Step-Claims : {s t : System E} → Step s t → t.claims < u32_mod → SystemClaims s → SystemClaims t
  Step-Claims {s} (load_wrindex i e at) few c =
      quiet-Claims i (Producer.has_wr e s.queue.wrindex) c (λ w h. cc)
  Step-Claims {s} (load_rdindex i e w at) few c =
      quiet-Claims i (Producer.has_rd e w s.queue.rdindex) c (λ v h. cc)
  Step-Claims (full i e w r at test) few c = quiet-Claims i Producer.idle c (λ v h. cc)
  Step-Claims (claim i e w r at test won) few c = claim-Claims i w e c won few
  Step-Claims {s} (claim_again i e w r at test lost) few c =
      quiet-Claims i (Producer.has_wr e s.queue.wrindex) c (λ v h. cc)
  Step-Claims (write i e w at) few c =
      quiet-Claims i (Producer.wrote w) c (λ v h. ap holding at ∙ h)
  Step-Claims (publish i w at turn) few c = quiet-Claims i Producer.idle c (λ v h. cc)
  Step-Claims (wait i w at turn) few c = c
  Step-Claims (begin i at) few c = c
  Step-Claims (look i r at) few c = c
  Step-Claims (empty i r w at test) few c = c
  Step-Claims (read i r w x at test got) few c = c
  Step-Claims (take_task i r x at now) few c = c
  Step-Claims (retry i r x at ne) few c = c

  claims_grow : {s t : System E} → Step s t → s.claims ≤ t.claims
  claims_grow (claim i e w r at test won) = omega arith
  claims_grow _ = omega arith

  Reach-Claims : {z : E} {n : ℕ} {s : System E} → Reach z n s → s.claims < u32_mod → SystemClaims s
  unfolding queue_init new_queue
  Reach-Claims here few = record { counted = refl; below = λ i w h. cc; unique = λ i j w h h'. cc }
  Reach-Claims (next r step) few =
      Step-Claims step few (Reach-Claims r (omega (arith, claims_grow step)))

  -- In every state that any number of producers and consumers of the mode MULTI reach, before 2^32
  -- slots have been claimed: if two producers hold the same claimed index then they are the same
  -- producer, and that index lies below the write index.
  pub Reach-unique :
      {z : E} {n : ℕ} {s : System E} (i j w : ℕ)
      → Reach z n s
      → s.claims < u32_mod
      → holding (s.producers i) ≡ some w
      → holding (s.producers j) ≡ some w
      → (i ≡ j) × (w < s.queue.wrindex)
  Reach-unique i j w r few hi hj =
      let c = Reach-Claims r few in (c.unique i j w hi hj, omega (arith, c.counted, c.below i w hi))
