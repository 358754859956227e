-- ===== src/TaskQueue/Inv.antt =====
-- What a ring of src/datas/task_queue.h holds: the tasks between its two counters, where a counter
-- stands for the number of all tasks that have passed, reduced to 32 bits.
use Prim.Native.Nat.{◌∣◌}
use native.Mathlib.Nat.{mod-mod_of_dvd, mod-add-mod, add-mod_right, div-add-mod', mod-lt}
use record_lib.Base.{
  ℕ, zero, suc, ◌+◌, ◌%◌, ◌<◌, ◌≤◌, ◌≡◌, ◌≢◌, refl, sym, ap, ◌∙◌, some, List, [], ◌∷◌, ◌++◌, arith,
  ◌==◌, inl, inr, Bool-cases, eq_refl, u32_mod, length, get_elem?, set, get_elem?-set_self,
  get_elem?-set_ne,
}
use record_lib.TaskQueue.{TaskQueue, rem, is_empty, is_full}

-- Counters less than a round apart have different slots.
pub mod_ne : (n i d : ℕ) → 0 < d → d < n → i % n ≢ (i + d) % n
mod_ne n i d pos small e = grind (arith, div-add-mod' i n, div-add-mod' (i + d) n)

pub slots_ne : (n r w d : ℕ) → w ≡ r + d → 0 < d → d < n → w % n ≢ r % n
slots_ne n r w d e pos small same = mod_ne n r d pos small (sym same ∙ ap (λ k. k % n) e)

-- A whole round further on is the same slot, and nothing nearer is.
pub same_slot : (n r d : ℕ) → 0 < d → d ≤ n → ((r + d) % n == r % n) ≡ (d == n)
same_slot n r d pos small = elim (Bool-cases (d == n)) [
  | inl e ↦
      let e' : d ≡ n = ground arith in
      let h : (r + d) % n ≡ r % n = rw e' (add-mod_right r n) in ground (arith, h)
  | inr ne ↦ ground (arith, mod_ne n r d pos)
]

pub no_task : (n r d : ℕ) → d < n → (r % n == (r + d) % n) ≡ (d == 0)
no_task n r zero small = let e : r + 0 ≡ r = omega arith in rw e (eq_refl (r % n))
no_task n r (suc d) small = ground (arith, mod_ne n r (suc d))

pub rem-ok : (n m : ℕ) → 0 < m → rem n m ≡ some (n % m)
rem-ok n zero h = absurd (omega arith)
rem-ok n (suc m) h = refl

module _ {E : Type 0} where
  -- The slots from the counter `r` on hold the tasks.
  abbrev pub Slots : List E → ℕ → ℕ → List E → Type 0
  Slots elems n r [] = Unit
  Slots elems n r (x ∷ xs) = (get_elem? elems (r % n) ≡ some x) × Slots elems n (suc r) xs

  -- A write to the slot behind the last task adds one.
  pub Slots-set :
      (elems : List E) (n r w : ℕ) (xs : List E) (v : E)
      → w ≡ r + length xs
      → length xs < n
      → n ≤ length elems
      → Slots elems n r xs
      → Slots (set elems (w % n) v) n r (xs ++ v ∷ [])
  Slots-set elems n r w [] v e small room s =
      let e' : w ≡ r = omega arith in
      (rw e' (get_elem?-set_self elems (r % n) v (omega (arith, mod-lt r small))), tt)
  Slots-set elems n r w (x ∷ xs) v e small room s = (
    get_elem?-set_ne elems (w % n) (r % n) v
          (slots_ne n r w (suc (length xs)) e (omega arith) small)
        ∙ s.0,
    Slots-set elems n (suc r) w xs v (omega arith) (omega arith) room s.1,
  )

  pub Slots-front :
      (elems : List E) (n r : ℕ) (xs ys : List E) → Slots elems n r (xs ++ ys) → Slots elems n r xs
  Slots-front elems n r [] ys s = tt
  Slots-front elems n r (x ∷ xs) ys s = (s.0, Slots-front elems n (suc r) xs ys s.1)

  pub Slots-snoc :
      (elems : List E) (n r w : ℕ) (xs : List E) (v : E)
      → w ≡ r + length xs
      → Slots elems n r xs
      → get_elem? elems (w % n) ≡ some v
      → Slots elems n r (xs ++ v ∷ [])
  Slots-snoc elems n r w [] v e s at = (ap (λ k. get_elem? elems (k % n)) (omega arith) ∙ at, tt)
  Slots-snoc elems n r w (x ∷ xs) v e s at =
      (s.0, Slots-snoc elems n (suc r) w xs v (omega arith) s.1 at)

  -- What a ring needs to work at any value of its counters: its size divides the number of values.
  pub record IsQueue (q : TaskQueue E) (xs : List E) : Type 0 where
    pub start : ℕ
    pub read : q.rdindex ≡ start % u32_mod
    pub written : q.wrindex ≡ (start + length xs) % u32_mod
    pub room : length xs < q.size
    pub round : q.size ∣ u32_mod
    pub array : q.size ≡ length q.elems
    pub tasks : Slots q.elems q.size start xs

  module _ {q : TaskQueue E} {xs : List E} (is : IsQueue q xs) where
    open is use {start, room, round}

    pub read_slot : q.rdindex % q.size ≡ start % q.size
    read_slot = rw is.read (mod-mod_of_dvd q.size start round)

    pub write_slot : q.wrindex % q.size ≡ (start + length xs) % q.size
    write_slot = rw is.written (mod-mod_of_dvd q.size (start + length xs) round)

    next_slot : (q.wrindex + 1) % u32_mod % q.size ≡ (start + suc (length xs)) % q.size
    next_slot =
        mod-mod_of_dvd q.size (q.wrindex + 1) round
        ∙ sym (mod-add-mod q.wrindex q.size 1)
        ∙ ap (λ k. (k + 1) % q.size) write_slot
        ∙ mod-add-mod (start + length xs) q.size 1
        ∙ ap (λ k. k % q.size) (omega arith)

    pub is_full-IsQueue : is_full q q.wrindex q.rdindex ≡ some (suc (length xs) == q.size)
    unfolding is_full
    is_full-IsQueue =
        rw
          (
            rem-ok ((q.wrindex + 1) % u32_mod) q.size (omega arith),
            rem-ok q.rdindex q.size (omega arith),
            next_slot,
            read_slot,
          )
          (ap some (same_slot q.size start (suc (length xs)) (omega arith) room))

    pub is_empty-IsQueue : is_empty q q.wrindex q.rdindex ≡ some (length xs == 0)
    unfolding is_empty
    is_empty-IsQueue =
        rw
          (
            rem-ok q.wrindex q.size (omega arith),
            rem-ok q.rdindex q.size (omega arith),
            write_slot,
            read_slot,
          )
          (ap some (no_task q.size start (length xs) room))
