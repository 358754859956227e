-- ===== src/Seqlock.antt =====
-- The sequence lock of src/lock/seqlock.h, run by writers and readers that interleave. At most
-- `max` writers are inside at once: the source has its spin lock commented out, so the number is what
-- its callers allow. A reader looks at the protected value any number of times between
-- `read_seqbegin` and `read_seqretry`.
pub mod Safety
pub mod Torn
mod Tests
use record_lib.Base.{
  ℕ, suc, ◌+◌, ◌-◌, ◌%◌, ◌<◌, ◌≡◌, Bool, true, false, not, Option, none, some, List, [], ◌∷◌, ◌==◌,
  if◌then◌else◌, u32_mod,
}

abbrev pub init_seqlock : ℕ
init_seqlock = 0

-- Both add one to the sequence.
abbrev pub write_seqlock : ℕ → ℕ
write_seqlock sequence = (sequence + 1) % u32_mod

abbrev pub write_sequnlock : ℕ → ℕ
write_sequnlock sequence = (sequence + 1) % u32_mod

-- One round of the loop of `read_seqbegin`: the start of the read, or nothing to try again.
abbrev pub read_seqbegin : ℕ → Option ℕ
read_seqbegin sequence = if sequence % 2 == 1 then none else some sequence

abbrev pub read_seqretry : ℕ → ℕ → Bool
read_seqretry sequence start = not (sequence == start)

pub data Reader (A : Type 0) : Type 0 where
  idle : Reader A
  reading : (start : ℕ) (seen : List A) → Reader A

-- `inside` counts the writers between lock and unlock, `exits` those that have left.
pub record System (A : Type 0) : Type 0 where
  pub sequence : ℕ
  pub value : A
  pub inside : ℕ
  pub exits : ℕ
  pub readers : ℕ → Reader A

module _ {A : Type 0} where
  abbrev pub update : (ℕ → Reader A) → ℕ → Reader A → ℕ → Reader A
  update f i r j = if j == i then r else f j

  pub data Step (max : ℕ) (s : System A) : System A → Type 0 where
    lock :
        s.inside < max
        → Step max s (record s { sequence = write_seqlock s.sequence; inside = suc s.inside })
    write : (v : A) → 0 < s.inside → Step max s (record s { value = v })
    unlock :
        0 < s.inside
        → Step max s (record s {
          sequence = write_sequnlock s.sequence;
          inside = s.inside - 1;
          exits = suc s.exits;
        })
    begin :
        (i start : ℕ)
        → s.readers i ≡ Reader.idle
        → read_seqbegin s.sequence ≡ some start
        → Step max s (record s { readers = update s.readers i (Reader.reading start []) })
    spin : (i : ℕ) → s.readers i ≡ Reader.idle → read_seqbegin s.sequence ≡ none → Step max s s
    look :
        (i start : ℕ) (seen : List A)
        → s.readers i ≡ Reader.reading start seen
        → Step max s
            (record s { readers = update s.readers i (Reader.reading start (s.value ∷ seen)) })
    finish :
        (i start : ℕ) (seen : List A)
        → s.readers i ≡ Reader.reading start seen
        → Step max s (record s { readers = update s.readers i Reader.idle })

  abbrev pub start_with : A → System A
  start_with v = record {
    sequence = init_seqlock;
    value = v;
    inside = 0;
    exits = 0;
    readers = λ _. Reader.idle;
  }

  pub data Reach (max : ℕ) (v : A) : System A → Type 0 where
    here : Reach max v (start_with v)
    next : {s t : System A} → Reach max v s → Step max s t → Reach max v t
