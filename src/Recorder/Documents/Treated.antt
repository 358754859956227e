-- ===== src/Recorder/Documents/Treated.antt =====
-- Which document a call of the driver treats when the query matches one at most.
use record_lib.Base.{
  ◌+◌, ◌≤◌, ◌<◌, ◌≡◌, refl, ap, ◌∙◌, sym, inl, inr, true, List, [], ◌∷◌, if◌then◌else◌, arith,
  Bool-cases,
}
use mathlib.Core.Path.{subst}
use record_lib.Recorder.{Bson}
use record_lib.Recorder.Documents.{
  matches, count, matching, changed, Inserted, Removed, Updated, Single, hit, missed,
}

changed_head : Bson → List Bson → List Bson
changed_head change [] = []
changed_head change (d ∷ ds) = changed change d ∷ ds

head_eq : {d e : Bson} {ds es : List Bson} → d ∷ ds ≡ e ∷ es → d ≡ e
head_eq h = cc

nil_ne : {d : Bson} {ds : List Bson} → [] ≡ d ∷ ds → ⊥
nil_ne h = cc

module _ (q : Bson) where
  Removed-pos : {old new : List Bson} → Removed q old new → 0 < count q old
  unfolding count
  Removed-pos (Removed.here h) = rw h (omega arith)
  Removed-pos (Removed.there r) = omega (arith, Removed-pos r)

  -- The document that is gone is the one that a search finds.
  pub Removed-single :
      {old new : List Bson} {d : Bson} {more : List Bson}
      → Removed q old new
      → count q old ≤ 1
      → matching q old ≡ d ∷ more
      → (r : Bson) → count r old ≡ (if matches r d then 1 else 0) + count r new
  unfolding count matching
  Removed-single (Removed.here {d} {ds} h) one found r =
      subst (λ x. count r (d ∷ ds) ≡ (if matches r x then 1 else 0) + count r ds)
        (head_eq (rw h at found)) refl
  Removed-single (Removed.there {e} k) one found r = elim (Bool-cases (matches q e)) [
    | inl m ↦ absurd (omega (arith, rw m at one, Removed-pos k))
    | inr m ↦ omega (arith, Removed-single k (omega (arith, rw m at one)) (rw m at found) r)
  ]

  matching_of_count : (ds : List Bson) → count q ds ≡ 0 → matching q ds ≡ []
  unfolding count matching
  matching_of_count [] h = refl
  matching_of_count (d ∷ ds) h = elim (Bool-cases (matches q d)) [
    | inl m ↦ absurd (omega (arith, rw m at h))
    | inr m ↦ rw m (matching_of_count ds (omega (arith, rw m at h)))
  ]

  count-found :
      (r : Bson) (ds : List Bson) {d : Bson} {more : List Bson}
      → matching r ds ≡ d ∷ more
      → matches q d ≡ true
      → 0 < count q ds
  unfolding count matching
  count-found r [] found m = absurd (nil_ne found)
  count-found r (e ∷ ds) found m = elim (Bool-cases (matches r e)) [
    | inl h ↦
        let m' : matches q e ≡ true =
          subst (λ x. matches q x ≡ true) (sym (head_eq (rw h at found))) m in
        rw m' (omega arith)
    | inr h ↦ omega (arith, count-found r ds (rw h at found) m)
  ]

  -- A document that the query matches is the one that it finds, if there is no other.
  pub matching-single :
      (r : Bson) (ds : List Bson) {d : Bson} {more : List Bson}
      → matching r ds ≡ d ∷ more
      → matches q d ≡ true
      → count q ds ≤ 1
      → matching q ds ≡ d ∷ []
  unfolding count matching
  matching-single r [] found m one = absurd (nil_ne found)
  matching-single r (e ∷ ds) {d} found m one = elim (Bool-cases (matches r e)) [
    | inl h ↦
        let same : e ≡ d = head_eq (rw h at found) in
        let m' : matches q e ≡ true = subst (λ x. matches q x ≡ true) (sym same) m in
        rw m' (rw (matching_of_count ds (omega (arith, rw m' at one))) (ap (λ x. x ∷ []) same))
    | inr h ↦ elim (Bool-cases (matches q e)) [
      | inl k ↦ absurd (omega (arith, rw k at one, count-found r ds (rw h at found) m))
      | inr k ↦ rw k (matching-single r ds (rw h at found) m (omega (arith, rw k at one)))
    ]
  ]

  -- A new document of a query that matched nothing is the one that it finds.
  pub matching-Inserted :
      {d : Bson} {old new : List Bson}
      → Inserted d old new
      → matches q d ≡ true
      → count q old ≡ 0
      → matching q new ≡ d ∷ []
  unfolding count matching
  matching-Inserted {d} (Inserted.here {ds}) m n = rw m (ap (λ t. d ∷ t) (matching_of_count ds n))
  matching-Inserted (Inserted.there {e} i) m n = elim (Bool-cases (matches q e)) [
    | inl h ↦ absurd (omega (arith, rw h at n))
    | inr h ↦ rw h (matching-Inserted i m (omega (arith, rw h at n)))
  ]

  -- Where a search finds a document, one is treated.
  pub Single-hit :
      {R : List Bson → List Bson → Type 0} {old new : List Bson} {d : Bson} {more : List Bson}
      → Single q R old new
      → matching q old ≡ d ∷ more
      → R old new
  Single-hit (hit r) found = r
  Single-hit {old} (missed h) found = absurd (nil_ne (sym (matching_of_count old h) ∙ found))

  Updated-pos : {change : Bson} {old new : List Bson} → Updated q change old new → 0 < count q old
  unfolding count
  Updated-pos (Updated.here h e) = rw h (omega arith)
  Updated-pos (Updated.there u) = omega (arith, Updated-pos u)

  -- The document that is changed is the one that a search finds, and it stays the one.
  pub Updated-single :
      {change : Bson} {old new : List Bson} {d : Bson} {more : List Bson}
      → Updated q change old new
      → count q old ≤ 1
      → matching q old ≡ d ∷ more
      → ((e : Bson) → matches q (changed change e) ≡ matches q e)
      → matching q new ≡ changed change d ∷ more
  unfolding count matching changed_head
  Updated-single {change} (Updated.here {d} {ds} h e) one found same =
      rw (e, same d, h) (list_of (rw h at found))
    where
      list_of :
          {d' : Bson} {more : List Bson}
          → d ∷ matching q ds ≡ d' ∷ more
          → changed change d ∷ matching q ds ≡ changed change d' ∷ more
      list_of f = ap (changed_head change) f
  Updated-single (Updated.there {e} u) one found same = elim (Bool-cases (matches q e)) [
    | inl m ↦ absurd (omega (arith, rw m at one, Updated-pos u))
    | inr m ↦ rw m (Updated-single u (omega (arith, rw m at one)) (rw m at found) same)
  ]
