-- ===== src/Recorder/Documents.antt =====
-- What the service relies on of the database and of the JSON reader: the documents of a collection,
-- which of them a query matches, and what the calls of the driver do to them. The order of the
-- documents is not fixed: a new document may stand anywhere.
pub mod Counts
pub mod Treated
pub mod Memory
use Prim.Native.String.{String}
use text.Mathlib.Text.{◌==◌ as str_eq}
use mathlib.Core.List.{map}
use record_lib.Base.{
  ℕ, ◌+◌, ◌≡◌, not, ◌&&◌, Bool, true, false, Option, none, some, List, [], ◌∷◌, ◌==◌, if◌then◌else◌,
}
use record_lib.Conf.Parser.{bytes_eq}
use record_lib.Recorder.{Bytes, Value, utf8, int32, document, Bson, Platform}

abbrev pub field : String → Bson → Option Value
field k [] = none
field k ((j, v) ∷ d) = if str_eq j k then some v else field k d

abbrev pub value_eq : Value → Value → Bool
value_eq (utf8 s) (utf8 t) = bytes_eq s t
value_eq (int32 m) (int32 n) = m == n
value_eq (document j v) (document k w) = str_eq j k && value_eq v w
value_eq _ _ = false

abbrev pub holds : Option Value → Value → Bool
holds none v = false
holds (some w) v = value_eq v w

-- `{k: v}` and `{k: {"$ne": v}}`
abbrev pub condition : Option Value → Value → Bool
condition w (document op v) = str_eq op "$ne" && not (holds w v)
condition w v = holds w v

abbrev pub matches : Bson → Bson → Bool
matches [] d = true
matches ((k, v) ∷ q) d = condition (field k d) v && matches q d

unfoldable pub count : Bson → List Bson → ℕ
count q [] = 0
count q (d ∷ ds) = (if matches q d then 1 else 0) + count q ds

abbrev pub set_field : String → Value → Bson → Bson
set_field k v [] = (k, v) ∷ []
set_field k v ((j, w) ∷ d) = if str_eq j k then (j, v) ∷ d else (j, w) ∷ set_field k v d

-- `{"$set": {k: v}}`
abbrev pub changed : Bson → Bson → Bson
changed ((op, document k v) ∷ []) d = if str_eq op "$set" then set_field k v d else d
changed _ d = d

-- The documents that a query matches, in order.
unfoldable pub matching : Bson → List Bson → List Bson
matching q [] = []
matching q (d ∷ ds) = if matches q d then d ∷ matching q ds else matching q ds

pub data Inserted (d : Bson) : List Bson → List Bson → Type 0 where
  here : {ds : List Bson} → Inserted d ds (d ∷ ds)
  there : {e : Bson} {ds ds' : List Bson} → Inserted d ds ds' → Inserted d (e ∷ ds) (e ∷ ds')

-- One document that the query matches is gone.
pub data Removed (q : Bson) : List Bson → List Bson → Type 0 where
  here : {d : Bson} {ds : List Bson} → matches q d ≡ true → Removed q (d ∷ ds) ds
  there : {e : Bson} {ds ds' : List Bson} → Removed q ds ds' → Removed q (e ∷ ds) (e ∷ ds')

-- One document that the query matches is changed.
pub data Updated (q change : Bson) : List Bson → List Bson → Type 0 where
  here :
      {d d' : Bson} {ds : List Bson}
      → matches q d ≡ true
      → d' ≡ changed change d
      → Updated q change (d ∷ ds) (d' ∷ ds)
  there :
      {e : Bson} {ds ds' : List Bson}
      → Updated q change ds ds'
      → Updated q change (e ∷ ds) (e ∷ ds')

-- One document is treated, or the query matches none.
pub data Single (q : Bson) (R : List Bson → List Bson → Type 0) (old : List Bson)
    : List Bson → Type 0 where
  hit : {new : List Bson} → R old new → Single q R old new
  missed : count q old ≡ 0 → Single q R old old

-- A call that fails changes nothing.
pub data Done {A : Type 0} (R : A → A → Type 0) (old : A) : Bool → A → Type 0 where
  done : {new : A} → R old new → Done R old true new
  refused : Done R old false old

pub record IsLawful (p : Platform) : Type 0 where
  pub docs : p.Db → List Bson
  pub to_json : Bson → p.Text
  pub find_lem : (q : Bson) (db : p.Db) → p.find q db ≡ map to_json (matching q (docs db))
  pub insert_lem :
      (d : Bson) (db : p.Db)
      → Done (Inserted d) (docs db) (p.insert d db).0 (docs (p.insert d db).1)
  pub remove_lem :
      (q : Bson) (db : p.Db)
      → Done (Single q (Removed q)) (docs db) (p.remove q db).0 (docs (p.remove q db).1)
  pub update_lem :
      (q change : Bson) (db : p.Db)
      → Done
          (Single q (Updated q change))
          (docs db)
          (p.update q change db).0
          (docs (p.update q change db).1)
  -- The text of a document is read back: the members of a kind that the reader converts.
  pub root_of : Bson → p.Root
  pub parse-to_json : (d : Bson) → p.parse (to_json d) ≡ some (root_of d)
  pub as_string-root_of :
      (d : Bson) (k : String) (s : Bytes)
      → field k d ≡ some (utf8 s)
      → p.as_string (root_of d) k ≡ some s
  pub as_int-root_of :
      (d : Bson) (k : String) (n : ℕ) → field k d ≡ some (int32 n) → p.as_int (root_of d) k ≡ some n
