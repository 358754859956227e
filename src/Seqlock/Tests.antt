-- ===== src/Seqlock/Tests.antt =====
-- The theorems on the sequence lock at short runs.
use record_lib.Base.{ℕ, ◌≡◌, refl, false, [], ◌∷◌, arith}
use record_lib.Seqlock.{
  Reader, System, begin, look, update, start_with, Reach, here, next, read_seqretry,
}
use record_lib.Seqlock.Safety.{AllEqual, read_seqretry-AllEqual}
use record_lib.Seqlock.Torn.{read_seqretry_torn}

-- One reader has looked once.
abbrev one_look : System ℕ
one_look = record (start_with 5) {
  readers =
      update (update (λ _. Reader.idle) 0 (Reader.reading 0 [])) 0 (Reader.reading 0 (5 ∷ []));
}

one_look_reached : Reach 1 5 one_look
one_look_reached = next (next here (begin 0 0 refl refl)) (look 0 0 [] refl)

read_seqretry-AllEqual_example : AllEqual {A = ℕ} 5 (5 ∷ [])
read_seqretry-AllEqual_example =
    read_seqretry-AllEqual 0 0 (5 ∷ []) one_look_reached (omega arith) refl refl

read_seqretry_torn_example :
    (s : System ℕ) × Reach 2 5 s
    × (s.readers 0 ≡ Reader.reading 2 (6 ∷ 5 ∷ []))
    × (read_seqretry s.sequence 2 ≡ false)
read_seqretry_torn_example = read_seqretry_torn 5 6
