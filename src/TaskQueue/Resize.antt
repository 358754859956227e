-- ===== src/TaskQueue/Resize.antt =====
-- `queue_resize` of src/datas/task_queue.h: what it does to the tasks in the ring.
use Prim.Native.Nat.{◌∣◌}
use native.Mathlib.Nat.{mod-eq_of_lt, suc-mod}
use record_lib.Base.{
  ℕ, zero, suc, ◌+◌, ◌-◌, ◌%◌, ◌<◌, ◌≤◌, ◌≡◌, refl, sym, ap, ◌∙◌, true, false, some, List, [], ◌∷◌,
  ◌++◌, arith, ◌==◌, u32_mod, length, length-append, get_elem?, length-replicate, replicate, take,
  get_elem?-replicate, get_elem?-append, Returns, returns, eq_refl,
}
use record_lib.TaskQueue.{TaskQueue, is_empty, queue_resize, dequeue}
use record_lib.TaskQueue.Inv.{mod_ne, rem-ok, Slots, IsQueue, read_slot}

module _ {E : Type 0} where
  take_all : (n : ℕ) (xs : List E) → n ≡ length xs → take n xs ≡ xs
  take_all zero [] e = refl
  take_all zero (x ∷ xs) e = absurd (omega arith)
  take_all (suc n) [] e = absurd (omega arith)
  take_all (suc n) (x ∷ xs) e = ap (λ ys. x ∷ ys) (take_all n xs (omega arith))

  behind : (xs ys : List E) (i : ℕ) → get_elem? (xs ++ ys) (length xs + i) ≡ get_elem? ys i
  behind [] ys i = let e : 0 + i ≡ i = omega arith in rw e
  behind (x ∷ xs) ys i =
      let e : suc (length xs) + i ≡ suc (length xs + i) = omega arith in rw e (behind xs ys i)

  -- What `queue_resize` puts behind the old slots.
  fresh_slot :
      (z : E) (more n i : ℕ) (elems : List E)
      → n ≡ length elems
      → n ≤ i
      → i < n + more
      → get_elem? (take n elems ++ replicate more z) i ≡ some z
  fresh_slot z more n i elems e le lt =
      let at : i ≡ length elems + (i - n) = omega arith in
      rw (take_all n elems e) (
        ap (get_elem? (elems ++ replicate more z)) at
        ∙ behind elems (replicate more z) (i - n)
        ∙ get_elem?-replicate more (i - n) z (omega arith))

  -- Slots below the old size keep their numbers.
  Slots-resize :
      (elems more : List E) (n m r r' : ℕ) (xs : List E)
      → n ≡ length elems
      → n ≤ m
      → r' % n ≡ r % n
      → r' + length xs ≤ n
      → Slots elems n r xs
      → Slots (elems ++ more) m r' xs
  Slots-resize elems more n m r r' [] e le same fit s = tt
  Slots-resize elems more n m r r' (x ∷ xs) e le same fit s =
      let small : r' < n = omega arith in
      (
        rw
            (
              mod-eq_of_lt {n = r'} {m = m} (omega arith),
              get_elem?-append elems more r' (omega arith),
            )
            (ap (get_elem? elems) (sym (mod-eq_of_lt small) ∙ same) ∙ s.0),
        Slots-resize elems more n m (suc r) (suc r') xs e le
            (suc-mod r' n ∙ ap (λ k. suc k % n) same ∙ sym (suc-mod r n)) (omega arith) s.1,
      )

  -- A resize to a size that divides 2^32 keeps the tasks of a ring that holds them, when the read
  -- counter plus the number of tasks is at most the old size.
  pub queue_resize_first_lap :
      (z : E) (more : ℕ) {q : TaskQueue E} {xs : List E}
      → IsQueue q xs
      → q.rdindex + length xs ≤ q.size
      → (q.size + more) ∣ u32_mod
      → IsQueue (queue_resize z more q) xs
  unfolding queue_resize
  queue_resize_first_lap z more {q} {xs} is lap round =
      rw (take_all q.size q.elems is.array) (record {
        start = q.rdindex;
        read = omega (arith, is.read);
        written = omega (arith, is.read, is.written);
        room = omega (arith, is.room);
        round = round;
        array =
            omega
              (arith, is.array, length-append q.elems (replicate more z), length-replicate more z);
        tasks =
            Slots-resize q.elems (replicate more z) q.size (q.size + more) is.start q.rdindex xs
              is.array (omega arith) (read_slot is) lap is.tasks;
      })

  -- A ring that holds a task and whose read counter is at least the old size and below the new one
  -- loses that task by a resize, if the counters do not wrap: the next dequeue answers true with
  -- the zero element.
  pub queue_resize_later_lap :
      (z ele : E) (more : ℕ) {q : TaskQueue E} {xs : List E} (x : E)
      → IsQueue q (x ∷ xs)
      → q.size ≤ q.rdindex
      → q.rdindex < q.size + more
      → q.rdindex + length (x ∷ xs) < u32_mod
      → Returns
          (λ (done, fetched, q'). (done ≡ true) × (fetched ≡ z))
          (dequeue 1 ele (queue_resize z more q))
  unfolding queue_resize dequeue is_empty
  queue_resize_later_lap z ele more {q} {xs} x is past near small =
      let n = q.size + more in
      let slot : q.rdindex % n ≡ q.rdindex = mod-eq_of_lt near in
      let behind_it : q.wrindex ≡ q.rdindex + suc (length xs) =
        omega (arith, is.read, is.written) in
      let off : (q.rdindex % n == q.wrindex % n) ≡ false = rw behind_it (
        ground
          (arith, mod_ne n q.rdindex (suc (length xs)) (omega arith) (omega (arith, is.room)))) in
      let found : get_elem? (take q.size q.elems ++ replicate more z) q.rdindex ≡ some z =
        fresh_slot z more q.size q.rdindex q.elems is.array past near in
      rw
        (
          rem-ok q.rdindex n (omega (arith, is.room)),
          rem-ok q.wrindex n (omega (arith, is.room)),
          off,
          slot,
          found,
          eq_refl q.rdindex,
        )
        (returns (refl, refl))
