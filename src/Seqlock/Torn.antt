-- ===== src/Seqlock/Torn.antt =====
-- Two writers at once defeat the sequence lock of src/lock/seqlock.h: between their locks the sequence
-- is even, and a reader takes the value for stable while it changes.
use record_lib.Base.{◌≡◌, refl, false, [], ◌∷◌, arith}
use record_lib.Seqlock.{
  Reader, System, lock, write, begin, look, update, start_with, Reach, here, next, read_seqretry,
}

module _ {A : Type 0} (v w : A) where
  abbrev both_inside : System A
  both_inside = record (start_with v) { sequence = 2; inside = 2 }

  abbrev looked : System A
  looked = record both_inside {
    readers =
        update (update (λ _. Reader.idle) 0 (Reader.reading 2 [])) 0 (Reader.reading 2 (v ∷ []));
  }

  looked_reached : Reach 2 v looked
  looked_reached =
      next (next (next (next here (lock (omega arith))) (lock (omega arith))) (begin 0 2 refl refl))
        (look 0 2 [] refl)

  -- When two writers may be inside the sequence lock at once, for any two values there is a
  -- reachable state in which a reader has seen the one and then the other and read_seqretry asks
  -- for no retry.
  pub read_seqretry_torn :
      (s : System A) × Reach 2 v s
      × (s.readers 0 ≡ Reader.reading 2 (w ∷ v ∷ []))
      × (read_seqretry s.sequence 2 ≡ false)
  read_seqretry_torn = (
    record looked { value = w; readers = update looked.readers 0 (Reader.reading 2 (w ∷ v ∷ [])) },
    next (next looked_reached (write w (omega arith))) (look 0 2 (v ∷ []) refl),
    refl,
    refl,
  )
