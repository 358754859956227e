-- ===== src/Recorder/Store/Records.antt =====
-- What the methods of src/app/process_manager.cpp on the database do to the documents.
use record_lib.Base.{
  ℕ, ◌≤◌, ◌<◌, ◌≡◌, refl, ap, inl, inr, Bool, ◌&&◌, true, false, List, [], ◌∷◌, arith, Bool-cases,
}
use record_lib.Conf.Parser.{bytes_eq}
use record_lib.Recorder.{
  Bytes, c_str, ProcessInfo, utf8, process_info_none, error_ok, Bson, Platform,
}
use record_lib.Recorder.Adaptor
use record_lib.Recorder.Adaptor.{Handle, handle, null, find_one, connect, collection}
use record_lib.Recorder.Store.{
  by_stream, set_pid, info_bson, open_collection, add_process_to_cache, update_process_info,
  remove_process_by_stream, is_process_exist,
}
use record_lib.Recorder.Documents.{
  matches, count, matching, changed, IsLawful, Done, refused, Inserted, Removed, Updated, Single,
}
use record_lib.Recorder.Documents.Counts.{
  Done-keeps, Done-map, absent, present, First-match, count-Inserted, count-Removed, count-Updated,
  field-set_field,
}

pub bytes_eq→≡ : (xs ys : Bytes) → bytes_eq xs ys ≡ true → xs ≡ ys
bytes_eq→≡ [] [] h = refl
bytes_eq→≡ (x ∷ xs) (y ∷ ys) h = ground (arith, bytes_eq→≡ xs ys)
bytes_eq→≡ [] (y ∷ ys) h = cc
bytes_eq→≡ (x ∷ xs) [] h = cc

pub bytes_eq_refl : (xs : Bytes) → bytes_eq xs xs ≡ true
bytes_eq_refl [] = refl
bytes_eq_refl (x ∷ xs) = ground (arith, bytes_eq_refl xs)

-- A stream has one document at most.
abbrev pub Unique : List Bson → Type 0
Unique ds = (sid : Bytes) → count (by_stream sid) ds ≤ 1

abbrev stream_query : Bytes → Bson
stream_query s = ("stream_id", utf8 s) ∷ []

and_true : (b : Bool) → (b && true) ≡ b
and_true true = refl
and_true false = refl

pub info-stream :
    (sid : Bytes) (info : ProcessInfo) (server : ℕ)
    → matches (by_stream sid) (info_bson info server) ≡ bytes_eq (c_str sid) (c_str info.sid)
info-stream sid info server = and_true (bytes_eq (c_str sid) (c_str info.sid))

pub set_pid-stream :
    (sid : Bytes) (pid : ℕ) (d : Bson)
    → matches (by_stream sid) (changed (set_pid pid) d) ≡ matches (by_stream sid) d
set_pid-stream sid pid d = rw (field-set_field "stream_id" "pid" _ d refl) refl

module _ (p : Platform) (l : IsLawful p) where
  open l use {docs, to_json, find_lem}

  -- What a search through an open collection finds.
  pub data Search (q : Bson) (db : p.Db) (item : p.Text) : Type 0 where
    nobody :
        count q (docs db) ≡ 0
        → find_one p handle q db item ≡ record { code = process_info_none; item = item }
        → Search q db item
    somebody :
        (d : Bson) (more : List Bson)
        → matches q d ≡ true
        → matching q (docs db) ≡ d ∷ more
        → 0 < count q (docs db)
        → find_one p handle q db item ≡ record { code = error_ok; item = to_json d }
        → Search q db item

  pub Search-one : (q : Bson) (db : p.Db) (item : p.Text) → Search q db item
  unfolding find_one
  Search-one q db item = elim (First-match q (docs db)) [
    | absent n m ↦ nobody n (rw (find_lem, m) refl)
    | present {d} {more} h n m ↦ somebody d more h m n (rw (find_lem, m) refl)
  ]

  -- A stream that the service does not find has no document.
  pub count-absent :
      (sid : Bytes) (db : p.Db)
      → open_collection p ≡ handle
      → is_process_exist p sid db ≡ false
      → count (by_stream sid) (docs db) ≡ 0
  unfolding is_process_exist
  count-absent sid db o h = elim (Search-one (by_stream sid) db p.empty_text) [
    | nobody n e ↦ n
    | somebody d more m f n e ↦ cc (rw (o, e) at h)
  ]

  pub insert-Done :
      (h : Handle) (d : Bson) (db : p.Db)
      → Done
          (λ old new. (h ≡ handle) × Inserted d old new)
          (docs db)
          (Adaptor.insert p h d db).0
          (docs (Adaptor.insert p h d db).1)
  unfolding Adaptor.insert
  insert-Done handle d db = Done-map (λ new r. (refl, r)) (l.insert_lem d db)
  insert-Done null d db = refused

  pub remove-Done :
      (h : Handle) (q : Bson) (db : p.Db)
      → Done
          (Single q (Removed q))
          (docs db)
          (Adaptor.remove p h q db).0
          (docs (Adaptor.remove p h q db).1)
  unfolding Adaptor.remove
  remove-Done handle q db = l.remove_lem q db
  remove-Done null q db = refused

  pub update-Done :
      (h : Handle) (q change : Bson) (db : p.Db)
      → Done
          (Single q (Updated q change))
          (docs db)
          (Adaptor.update p h q change db).0
          (docs (Adaptor.update p h q change db).1)
  unfolding Adaptor.update
  update-Done handle q change db = l.update_lem q change db
  update-Done null q change db = refused

  -- The documents stay unique when one of a new stream is added.
  pub add-Unique :
      (info : ProcessInfo) (server : ℕ) (db : p.Db)
      → (open_collection p ≡ handle → count (by_stream info.sid) (docs db) ≡ 0)
      → Unique (docs db)
      → Unique (docs (add_process_to_cache p info server db).1)
  unfolding add_process_to_cache
  add-Unique info server db new u sid =
      Done-keeps (λ ds. count (by_stream sid) ds ≤ 1) (u sid) (λ ds (o, r). unique_after o r)
        (insert-Done (open_collection p) (info_bson info server) db)
    where
      unique_after :
          {ds : List Bson}
          → open_collection p ≡ handle
          → Inserted (info_bson info server) (docs db) ds
          → count (by_stream sid) ds ≤ 1
      unique_after o r = elim (Bool-cases (bytes_eq (c_str sid) (c_str info.sid))) [
        | inl e ↦
            let same : by_stream sid ≡ by_stream info.sid =
              ap stream_query (bytes_eq→≡ (c_str sid) (c_str info.sid) e) in
            let none_old : count (by_stream sid) (docs db) ≡ 0 = rw same (new o) in
            rw (count-Inserted (by_stream sid) r, info-stream sid info server, e, none_old)
              (omega arith)
        | inr e ↦
            rw (count-Inserted (by_stream sid) r, info-stream sid info server, e)
              (omega (arith, u sid))
      ]

  pub remove-Unique :
      (sid : Bytes) (db : p.Db)
      → Unique (docs db)
      → Unique (docs (remove_process_by_stream p sid db).1)
  unfolding remove_process_by_stream
  remove-Unique sid db u t =
      Done-keeps (λ ds. count (by_stream t) ds ≤ 1) (u t)
        (λ ds r. omega (arith, count-Removed (by_stream t) r, u t))
        (remove-Done (open_collection p) (by_stream sid) db)

  pub update-Unique :
      (info : ProcessInfo) (db : p.Db)
      → Unique (docs db)
      → Unique (docs (update_process_info p info db).1)
  unfolding update_process_info
  update-Unique info db u t =
      Done-keeps (λ ds. count (by_stream t) ds ≤ 1) (u t)
        (λ ds r. omega (arith, count-Updated (by_stream t) (set_pid-stream t info.pid) r, u t))
        (update-Done (open_collection p) (by_stream info.sid) (set_pid info.pid) db)
