-- ===== src/Recorder/Adaptor.antt =====
-- src/app/mongo_adaptor.cpp. A connection is whether the driver gave a client, and a collection
-- stands for the one collection of the service or is NULL.
use record_lib.Base.{ℕ, Bool, true, false, List, [], ◌∷◌, ◌++◌}
use record_lib.Recorder.{
  Bytes, ErrorCode, error_ok, process_info_none, get_collection_failed, Bson, Platform,
}

-- A collection that is not NULL, or NULL.
pub data Handle : Type 0 where
  handle : Handle
  null : Handle

-- The result of `findOne`: the text is written if there is one.
pub record Found (A : Type 0) : Type 0 where
  pub code : ErrorCode
  pub item : A

unfoldable pub collection : Handle → Handle
collection null = null
collection handle = handle

module _ (p : Platform) where
  open p use {Text, Db, client_new}

  unfoldable pub connect : Bytes → Handle
  connect addr = elim (client_new addr) [ true ↦ handle | false ↦ null ]

  unfoldable pub insert : Handle → Bson → Db → Bool × Db
  insert null query db = (false, db)
  insert handle query db = p.insert query db

  unfoldable pub update : Handle → Bson → Bson → Db → Bool × Db
  update null query change db = (false, db)
  update handle query change db = p.update query change db

  unfoldable pub remove : Handle → Bson → Db → Bool × Db
  remove null query db = (false, db)
  remove handle query db = p.remove query db

  -- The result and the list, behind whose texts the new ones are pushed.
  unfoldable pub find : Handle → Bson → Db → List Text → ℕ × List Text
  find null query db list = (1, list)
  find handle query db list = (0, list ++ p.find query db)

  first : List Text → Text → Found Text
  first [] item = record { code = process_info_none; item = item }
  first (text ∷ more) item = record { code = error_ok; item = text }

  unfoldable pub find_one : Handle → Bson → Db → Text → Found Text
  unfolding first
  find_one null query db item = record { code = get_collection_failed; item = item }
  find_one handle query db item = first (p.find query db) item
