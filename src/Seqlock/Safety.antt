-- ===== src/Seqlock/Safety.antt =====
-- With one writer at a time, a reader of src/lock/seqlock.h that need not retry has seen one value.
use mathlib.Core.Path.{subst}
use record_lib.Base.{
  ℕ, suc, ◌+◌, ◌-◌, ◌*◌, ◌%◌, ◌^◌, ◌<◌, ◌≤◌, ◌≡◌, refl, false, some, List, [], ◌∷◌, ◌==◌, u32_mod,
  arith, inl, inr, Bool-cases,
}
use record_lib.Seqlock.{
  Reader, System, Step, lock, write, unlock, begin, spin, look, finish, update, Reach, here, next,
  read_seqbegin, read_seqretry,
}

begun :
    (sequence start : ℕ)
    → read_seqbegin sequence ≡ some start
    → (start ≡ sequence) × (start % 2 ≡ 0)
begun sequence start e = ground arith

module _ {A : Type 0} where
  abbrev pub AllEqual : A → List A → Type 0
  AllEqual v [] = Unit
  AllEqual v (x ∷ xs) = (x ≡ v) × AllEqual v xs

  -- A reader began in the past; if nothing has entered since, it has seen the present value only.
  abbrev ReaderOk : System A → Reader A → Type 0
  ReaderOk s Reader.idle = Unit
  ReaderOk s (Reader.reading start seen) =
      (start ≤ s.sequence) × (start % 2 ≡ 0) × (start ≡ s.sequence → AllEqual s.value seen)

  record Inv (s : System A) : Type 0 where
    alone : s.inside < 2
    counted : s.sequence ≡ 2 * s.exits + s.inside
    readers : (i : ℕ) → ReaderOk s (s.readers i)

  -- The sequence grows, or the value changes while it is odd.
  ReaderOk-grow :
      (s t : System A) (r : Reader A) → s.sequence < t.sequence → ReaderOk s r → ReaderOk t r
  ReaderOk-grow s t Reader.idle more ok = tt
  ReaderOk-grow s t (Reader.reading start seen) more (le, even, ok) =
      (omega arith, even, λ e. absurd (omega arith))

  ReaderOk-odd :
      (s t : System A) (r : Reader A)
      → t.sequence ≡ s.sequence
      → s.sequence % 2 ≡ 1
      → ReaderOk s r
      → ReaderOk t r
  ReaderOk-odd s t Reader.idle same odd ok = tt
  ReaderOk-odd s t (Reader.reading start seen) same odd (le, even, ok) =
      (omega arith, even, λ e. absurd (omega arith))

  ReaderOk-same :
      (s : System A) (f : ℕ → Reader A) (r : Reader A)
      → ReaderOk s r
      → ReaderOk (record s { readers = f }) r
  ReaderOk-same s f Reader.idle ok = tt
  ReaderOk-same s f (Reader.reading start seen) ok = ok

  reader-Inv :
      {s : System A} (i : ℕ) (r : Reader A)
      → Inv s
      → ReaderOk s r
      → Inv (record s { readers = update s.readers i r })
  reader-Inv {s} i r inv ok = record {
    alone = inv.alone;
    counted = inv.counted;
    readers = λ j. elim (Bool-cases (j == i)) [
      | inl e ↦ rw e (ReaderOk-same s (update s.readers i r) r ok)
      | inr e ↦ rw e (ReaderOk-same s (update s.readers i r) (s.readers j) (inv.readers j))
    ];
  }

  Step-Inv : {s t : System A} → Step 1 s t → t.exits < 2 ^ 31 - 1 → Inv s → Inv t
  Step-Inv {s} {t} (lock free) few inv =
      let e : (s.sequence + 1) % u32_mod ≡ suc s.sequence = omega (arith, inv.counted, inv.alone) in
      record {
        alone = omega arith;
        counted = omega (arith, e, inv.counted);
        readers = λ i. ReaderOk-grow s t (s.readers i) (omega (arith, e)) (inv.readers i);
      }
  Step-Inv {s} {t} (write v busy) few inv = record {
    alone = inv.alone;
    counted = inv.counted;
    readers = λ i.
        ReaderOk-odd s t (s.readers i) refl (omega (arith, inv.counted, inv.alone)) (inv.readers i);
  }
  Step-Inv {s} {t} (unlock busy) few inv =
      let e : (s.sequence + 1) % u32_mod ≡ suc s.sequence = omega (arith, inv.counted, inv.alone) in
      record {
        alone = omega (arith, inv.alone);
        counted = omega (arith, e, inv.counted, inv.alone);
        readers = λ i. ReaderOk-grow s t (s.readers i) (omega (arith, e)) (inv.readers i);
      }
  Step-Inv {s} (begin i start at ok) few inv =
      let (now, even) = begun s.sequence start ok in
      reader-Inv i (Reader.reading start []) inv (omega arith, even, λ _. tt)
  Step-Inv (spin i at odd) few inv = inv
  Step-Inv {s} (look i start seen at) few inv =
      let (le, even, ok) = subst (ReaderOk s) at (inv.readers i) in
      reader-Inv i (Reader.reading start (s.value ∷ seen)) inv (le, even, λ e. (refl, ok e))
  Step-Inv (finish i start seen at) few inv = reader-Inv i Reader.idle inv tt

  exits_grow : {s t : System A} → Step 1 s t → s.exits ≤ t.exits
  exits_grow (unlock busy) = omega arith
  exits_grow _ = omega arith

  Reach-Inv : {v : A} {s : System A} → Reach 1 v s → s.exits < 2 ^ 31 - 1 → Inv s
  Reach-Inv here few = record { alone = omega arith; counted = omega arith; readers = λ i. tt }
  Reach-Inv (next r step) few = Step-Inv step few (Reach-Inv r (omega (arith, exits_grow step)))

  -- In every state that one writer at a time and any number of readers reach from a fresh sequence
  -- lock, with fewer than 2^31 - 1 writes completed: a reader for which read_seqretry now asks for
  -- no retry has seen, at each look since its read_seqbegin, the value that the lock protects now.
  pub read_seqretry-AllEqual :
      {v : A} {s : System A} (i start : ℕ) (seen : List A)
      → Reach 1 v s
      → s.exits < 2 ^ 31 - 1
      → s.readers i ≡ Reader.reading start seen
      → read_seqretry s.sequence start ≡ false
      → AllEqual s.value seen
  read_seqretry-AllEqual {s} i start seen r few at done =
      let (le, even, ok) = subst (ReaderOk s) at ((Reach-Inv r few).readers i) in ok (ground arith)
