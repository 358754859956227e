-- ===== src/Recorder/Store.antt =====
-- The methods of `ProcessManager` that read and write the database, src/app/process_manager.cpp.
pub mod Records
pub mod Reads
pub mod Streams
use Prim.Native.String.{String}
use record_lib.Base.{
  ℕ, ◌≡◌, not, Bool, true, false, Option, none, some, List, [], ◌∷◌, ◌++◌, ◌==◌, if◌then◌else◌,
}
use record_lib.Recorder.{
  Bytes, codes, c_str, ProcessInfo, ErrorCode, error_ok, mongodb_error, json_parser_error,
  json_parser_exception, utf8, int32, document, Bson, Platform,
}
use record_lib.Recorder.Adaptor
use record_lib.Recorder.Adaptor.{Handle, Found, connect, collection, find_one}

abbrev pub db_address : Bytes
db_address = codes "mongodb://localhost:27017"

-- The queries.
abbrev pub by_stream : Bytes → Bson
by_stream sid = ("stream_id", utf8 (c_str sid)) ∷ []

abbrev pub by_pid : ℕ → Bson
by_pid pid = ("pid", int32 pid) ∷ []

abbrev pub by_other_parent : ℕ → Bson
by_other_parent pid = ("ppid", document "$ne" (int32 pid)) ∷ []

abbrev pub set_pid : ℕ → Bson
set_pid pid = ("$set", document "pid" (int32 pid)) ∷ []

-- The document of a process, under the server `ppid`.
abbrev pub info_bson : ProcessInfo → (ppid : ℕ) → Bson
info_bson info ppid =
    ("stream_id", utf8 (c_str info.sid))
    ∷ ("pid", int32 info.pid)
    ∷ ("ppid", int32 ppid)
    ∷ ("src_url", utf8 (c_str info.src_url))
    ∷ ("m3u8_path", utf8 (c_str info.m3u8_path))
    ∷ ("type", utf8 (c_str info.type))
    ∷ ("status", utf8 (codes "active"))
    ∷ ("host", utf8 (c_str info.host))
    ∷ []

-- The assignments of `parser`, which an exception cuts short.
pub data Assigned : Type 0 where
  assigned : ProcessInfo → Assigned
  thrown : ProcessInfo → Assigned

infixl 5 ◌>>=◌
abbrev pub ◌>>=◌ : Assigned → (ProcessInfo → Assigned) → Assigned
assigned info >>= f = f info
thrown info >>= f = thrown info

abbrev pub assign : {A : Type 0} → Option A → (A → ProcessInfo) → ProcessInfo → Assigned
assign none put info = thrown info
assign (some a) put info = assigned (put a)

pub is_ok : ErrorCode → Bool
is_ok error_ok = true
is_ok _ = false

pub code_if : Bool → ErrorCode
code_if done = if done then error_ok else mongodb_error

module _ (p : Platform) where
  open p use {Text, Root, Db, empty_text, parse, as_string, as_int}

  unfoldable pub open_collection : Handle
  open_collection = collection (connect p db_address)

  members : Root → ProcessInfo → Assigned
  members root info = do
    info ← assign (as_string root "src_url") (λ t. record info { src_url = t }) info
    info ← assign (as_string root "m3u8_path") (λ t. record info { m3u8_path = t }) info
    info ← assign (as_string root "stream_id") (λ t. record info { sid = t }) info
    info ← assign (as_string root "type") (λ t. record info { type = t }) info
    info ← assign (as_string root "status") (λ t. record info { status = t }) info
    info ← assign (as_string root "host") (λ t. record info { host = t }) info
    info ← assign (as_int root "pid") (λ n. record info { pid = n }) info
    assign (as_int root "ppid") (λ n. record info { ppid = n }) info

  unfoldable pub parser : Text → ProcessInfo → ErrorCode × ProcessInfo
  unfolding members
  parser item info = elim (parse item) [
    | none ↦ (json_parser_error, info)
    | some root ↦ elim (members root info) [
      | assigned info ↦ (error_ok, info)
      | thrown info ↦ (json_parser_exception, info)
    ]
  ]

  unfoldable pub add_process_to_cache : ProcessInfo → (server : ℕ) → Db → ErrorCode × Db
  unfolding code_if open_collection
  add_process_to_cache info server db =
      let (done, db') = Adaptor.insert p open_collection (info_bson info server) db in
      (code_if done, db')

  unfoldable pub update_process_info : ProcessInfo → Db → ErrorCode × Db
  unfolding code_if open_collection
  update_process_info info db =
      let (done, db') =
        Adaptor.update p open_collection (by_stream info.sid) (set_pid info.pid) db in
      (code_if done, db')

  unfoldable pub remove_process_by_stream : Bytes → Db → ErrorCode × Db
  unfolding code_if open_collection
  remove_process_by_stream sid db =
      let (done, db') = Adaptor.remove p open_collection (by_stream sid) db in (code_if done, db')

  unfoldable pub remove_process_by_id : ℕ → Db → ErrorCode × Db
  unfolding code_if open_collection
  remove_process_by_id pid db =
      let (done, db') = Adaptor.remove p open_collection (by_pid pid) db in (code_if done, db')

  -- The two methods `is_process_exist`.
  unfoldable pub is_process_exist : Bytes → Db → Bool
  unfolding is_ok open_collection
  is_process_exist sid db = is_ok (find_one p open_collection (by_stream sid) db empty_text).code

  unfoldable pub is_pid_exist : ℕ → ProcessInfo → Db → Bool × ProcessInfo
  unfolding is_ok open_collection
  is_pid_exist pid info db =
      let found = find_one p open_collection (by_pid pid) db empty_text in
      if is_ok found.code then (true, (parser found.item info).1) else (false, info)

  -- `fresh` is the new object, whose numbers are not set.
  unfoldable pub get_process_info : (fresh : ProcessInfo) → Bytes → Db → Option ProcessInfo
  unfolding is_ok open_collection
  get_process_info fresh sid db =
      let found = find_one p open_collection (by_stream sid) db empty_text in
      if is_ok found.code then some (parser found.item fresh).1 else none

  -- The loop over the texts; `item` keeps what the round before has left.
  pub orphans : (server : ℕ) → ProcessInfo → List Text → List ProcessInfo → List ProcessInfo
  orphans server item [] vec = vec
  orphans server item (text ∷ texts) vec =
      let next = (parser text item).1 in
      orphans server next texts (if not (next.ppid == server) then vec ++ (next ∷ []) else vec)

  unfoldable pub find_orphan_process :
      (fresh : ProcessInfo) → (server : ℕ) → Db → ℕ × List ProcessInfo
  unfolding open_collection orphans
  find_orphan_process fresh server db =
      let (ret, vec) = Adaptor.find p open_collection (by_other_parent server) db [] in
      (ret, orphans server fresh vec [])
