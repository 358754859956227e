-- ===== src/Recorder/Documents/Counts.antt =====
-- How the calls of the driver change the number of documents that a query matches.
use text.Mathlib.Text.{◌==◌ as str_eq}
use text.Mathlib.TextEquality.{eq_iff}
use Prim.Native.String.{String}
use record_lib.Base.{
  suc, ◌+◌, ◌-◌, ◌≤◌, ◌<◌, ◌≡◌, refl, inl, inr, Bool, true, false, List, [], ◌∷◌, if◌then◌else◌,
  arith, Bool-cases,
}
use record_lib.Recorder.{Bson, Value}
use record_lib.Recorder.Documents.{
  Done, done, refused, matches, count, matching, changed, field, set_field, Inserted, Removed,
  Updated, Single, hit, missed,
}

module _ {A : Type 0} {R : A → A → Type 0} {old : A} where
  -- What holds before a call, and behind a change, holds after it.
  pub Done-keeps :
      (P : A → Type 0)
      → P old
      → ((new : A) → R old new → P new)
      → {b : Bool} {new : A} → Done R old b new
      → P new
  Done-keeps P same change (done r) = change _ r
  Done-keeps P same change refused = same

  pub Done-done : {b : Bool} {new : A} → Done R old b new → b ≡ true → R old new
  Done-done (done r) h = r
  Done-done refused h = cc

  pub Done-map :
      {R' : A → A → Type 0}
      → ((new : A) → R old new → R' old new)
      → {b : Bool} {new : A} → Done R old b new
      → Done R' old b new
  Done-map f (done r) = done (f _ r)
  Done-map f refused = refused

module _ (q : Bson) where
  pub count-Inserted :
      {d : Bson} {old new : List Bson}
      → Inserted d old new
      → count q new ≡ (if matches q d then 1 else 0) + count q old
  unfolding count
  count-Inserted Inserted.here = refl
  count-Inserted {d} (Inserted.there {e} r) = omega (arith, count-Inserted r)

  Removed-count : {r : Bson} {old new : List Bson} → Removed r old new → count q new ≤ count q old
  unfolding count
  Removed-count (Removed.here h) = omega arith
  Removed-count (Removed.there r) = omega (arith, Removed-count r)

  pub count-Removed :
      {r : Bson} {old new : List Bson} → Single r (Removed r) old new → count q new ≤ count q old
  count-Removed (hit r) = Removed-count r
  count-Removed (missed h) = omega arith

  Removed-count_suc : {old new : List Bson} → Removed q old new → count q old ≡ suc (count q new)
  unfolding count
  Removed-count_suc (Removed.here h) = rw h (omega arith)
  Removed-count_suc (Removed.there r) = omega (arith, Removed-count_suc r)

  pub count-Removed_self :
      {old new : List Bson} → Single q (Removed q) old new → count q new ≡ count q old - 1
  count-Removed_self (hit r) = omega (arith, Removed-count_suc r)
  count-Removed_self (missed h) = omega arith

  Updated-count :
      {r change : Bson}
      → ((d : Bson) → matches q (changed change d) ≡ matches q d)
      → {old new : List Bson} → Updated r change old new
      → count q new ≡ count q old
  unfolding count
  Updated-count same (Updated.here {d} h e) = rw (e, same d) refl
  Updated-count same (Updated.there u) = omega (arith, Updated-count same u)

  pub count-Updated :
      {r change : Bson}
      → ((d : Bson) → matches q (changed change d) ≡ matches q d)
      → {old new : List Bson} → Single r (Updated r change) old new
      → count q new ≡ count q old
  count-Updated same (hit u) = Updated-count same u
  count-Updated same (missed h) = refl

  -- The first document that the query matches, or none.
  pub data First : List Bson → Type 0 where
    absent : {ds : List Bson} → count q ds ≡ 0 → matching q ds ≡ [] → First ds
    present :
        {ds : List Bson} {d : Bson} {more : List Bson}
        → matches q d ≡ true
        → 0 < count q ds
        → matching q ds ≡ d ∷ more
        → First ds

  pub First-match : (ds : List Bson) → First ds
  unfolding count matching
  First-match [] = absent refl refl
  First-match (d ∷ ds) = elim (Bool-cases (matches q d)) [
    | inl e ↦ present {d = d} {more = matching q ds} e (rw e (omega arith)) (rw e refl)
    | inr e ↦ elim (First-match ds) [
      | absent n m ↦ absent (rw e (omega arith)) (rw e m)
      | present {d} {more} h n m ↦ present {d = d} {more = more} h (rw e (omega arith)) (rw e m)
    ]
  ]

pub field-set_field :
    (j k : String) (v : Value) (d : Bson)
    → str_eq k j ≡ false
    → field j (set_field k v d) ≡ field j d
field-set_field j k v [] h = rw h refl
field-set_field j k v ((i, w) ∷ d) h =
    ground (arith, eq_iff i k, eq_iff i j, eq_iff k j, field-set_field j k v d h)
