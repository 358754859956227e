-- ===== src/Recorder/Store/Reads.antt =====
-- Reading back what `add_process_to_cache` of src/app/process_manager.cpp writes.
use record_lib.Base.{ℕ, ◌≡◌, refl, sym, inl, inr, List, [], ◌∷◌, Bool-cases}
use mathlib.Core.Path.{subst}
use record_lib.Recorder.{Bytes, codes, c_str, ProcessInfo, error_ok, Bson, Platform}
use record_lib.Recorder.Store.{
  by_stream, set_pid, info_bson, open_collection, parser, members, add_process_to_cache,
  update_process_info, remove_process_by_stream,
}
use record_lib.Recorder.Store.Records.{insert-Done, remove-Done, update-Done}
use record_lib.Recorder.Documents.Counts.{Done-keeps}
use record_lib.Recorder.Documents.{
  matches, matching, changed, IsLawful, Inserted, Removed, Updated, Single, hit, missed,
}

-- A document as the service writes it.
pub data Recorded (d : Bson) : Type 0 where
  recorded : (info : ProcessInfo) (server : ℕ) → d ≡ info_bson info server → Recorded d

abbrev pub AllRecorded : List Bson → Type 0
AllRecorded [] = Unit
AllRecorded (d ∷ ds) = Recorded d × AllRecorded ds

pub set_pid-info_bson :
    (n : ℕ) (info : ProcessInfo) (server : ℕ)
    → changed (set_pid n) (info_bson info server) ≡ info_bson (record info { pid = n }) server
set_pid-info_bson n info server = refl

set_pid-Recorded : (n : ℕ) (d : Bson) → Recorded d → Recorded (changed (set_pid n) d)
set_pid-Recorded n d (recorded info server e) =
    recorded (record info { pid = n }) server (rw e refl)

pub Inserted-AllRecorded :
    {d : Bson} {old new : List Bson}
    → Inserted d old new
    → Recorded d
    → AllRecorded old
    → AllRecorded new
Inserted-AllRecorded Inserted.here r all = (r, all)
Inserted-AllRecorded (Inserted.there i) r (e, all) = (e, Inserted-AllRecorded i r all)

Removed-AllRecorded :
    {q : Bson} {old new : List Bson} → Removed q old new → AllRecorded old → AllRecorded new
Removed-AllRecorded (Removed.here h) (e, all) = all
Removed-AllRecorded (Removed.there r) (e, all) = (e, Removed-AllRecorded r all)

Updated-AllRecorded :
    {q : Bson} {n : ℕ} {old new : List Bson}
    → Updated q (set_pid n) old new
    → AllRecorded old
    → AllRecorded new
Updated-AllRecorded {n} (Updated.here {d} h e) (r, all) =
    (subst Recorded (sym e) (set_pid-Recorded n d r), all)
Updated-AllRecorded (Updated.there u) (r, all) = (r, Updated-AllRecorded u all)

Removed-Single :
    {q : Bson} {old new : List Bson}
    → Single q (Removed q) old new
    → AllRecorded old
    → AllRecorded new
Removed-Single (hit r) all = Removed-AllRecorded r all
Removed-Single (missed h) all = all

Updated-Single :
    {q : Bson} {n : ℕ} {old new : List Bson}
    → Single q (Updated q (set_pid n)) old new
    → AllRecorded old
    → AllRecorded new
Updated-Single (hit u) all = Updated-AllRecorded u all
Updated-Single (missed h) all = all

pub matching-AllRecorded :
    (q : Bson) (ds : List Bson) → AllRecorded ds → AllRecorded (matching q ds)
unfolding matching
matching-AllRecorded q [] all = tt
matching-AllRecorded q (d ∷ ds) (r, all) = elim (Bool-cases (matches q d)) [
  | inl e ↦ rw e (r, matching-AllRecorded q ds all)
  | inr e ↦ rw e (matching-AllRecorded q ds all)
]

-- What a reader gets of a document.
abbrev pub stored : ProcessInfo → (server : ℕ) → ProcessInfo
stored info server = record {
  sid = c_str info.sid;
  pid = info.pid;
  ppid = server;
  src_url = c_str info.src_url;
  m3u8_path = c_str info.m3u8_path;
  type = c_str info.type;
  status = codes "active";
  host = c_str info.host;
}

module _ (p : Platform) (l : IsLawful p) where
  open l use {docs, to_json, root_of, as_string-root_of, as_int-root_of}

  pub add-AllRecorded :
      (info : ProcessInfo) (server : ℕ) (db : p.Db)
      → AllRecorded (docs db)
      → AllRecorded (docs (add_process_to_cache p info server db).1)
  unfolding add_process_to_cache
  add-AllRecorded info server db all =
      Done-keeps AllRecorded all
        (λ ds (o, i). Inserted-AllRecorded i (recorded info server refl) all)
        (insert-Done p l (open_collection p) (info_bson info server) db)

  pub remove-AllRecorded :
      (sid : Bytes) (db : p.Db)
      → AllRecorded (docs db)
      → AllRecorded (docs (remove_process_by_stream p sid db).1)
  unfolding remove_process_by_stream
  remove-AllRecorded sid db all =
      Done-keeps AllRecorded all (λ ds r. Removed-Single r all)
        (remove-Done p l (open_collection p) (by_stream sid) db)

  pub update-AllRecorded :
      (info : ProcessInfo) (db : p.Db)
      → AllRecorded (docs db)
      → AllRecorded (docs (update_process_info p info db).1)
  unfolding update_process_info
  update-AllRecorded info db all =
      Done-keeps AllRecorded all (λ ds r. Updated-Single r all)
        (update-Done p l (open_collection p) (by_stream info.sid) (set_pid info.pid) db)

  -- What add_process_to_cache writes is read back by parser, with texts cut at a NUL.
  pub parser-info_bson :
      (info fresh : ProcessInfo) (server : ℕ)
      → parser p (to_json (info_bson info server)) fresh ≡ (error_ok, stored info server)
  unfolding parser members
  parser-info_bson info fresh server =
      let d = info_bson info server in
      rw
        (
          l.parse-to_json d,
          parser,
          members,
          as_string-root_of d "src_url" _ refl,
          as_string-root_of d "m3u8_path" _ refl,
          as_string-root_of d "stream_id" _ refl,
          as_string-root_of d "type" _ refl,
          as_string-root_of d "status" _ refl,
          as_string-root_of d "host" _ refl,
          as_int-root_of d "pid" _ refl,
          as_int-root_of d "ppid" _ refl,
        )
        refl
