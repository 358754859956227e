-- ===== src/Recorder/Process/Restarts.antt =====
-- How src/app/process_manager.cpp records a process that it starts, and starts a dead one again.
use mathlib.Core.Path.{subst}
use record_lib.Base.{ℕ, ◌≡◌, refl, ap, sym, ◌∙◌, Bool, true, false, some, List, [], ◌∷◌}
use record_lib.Recorder.{
  Bytes, c_str, ProcessInfo, M3u8Param, error_ok, Bson, parent, Platform, State,
}
use record_lib.Recorder.Adaptor
use record_lib.Recorder.Adaptor.{handle, find_one}
use record_lib.Recorder.Files.{create_m3u8}
use record_lib.Recorder.Store.{
  by_stream, by_pid, set_pid, info_bson, open_collection, add_process_to_cache, update_process_info,
  is_process_exist, is_pid_exist, get_process_info,
}
use record_lib.Recorder.Store.Records.{
  bytes_eq_refl, info-stream, set_pid-stream, Unique, nobody, somebody, Search-one, count-absent,
  insert-Done, update-Done,
}
use record_lib.Recorder.Store.Reads.{
  recorded, AllRecorded, matching-AllRecorded, stored, parser-info_bson,
}
use record_lib.Recorder.Store.Streams.{c_str-c_str}
use record_lib.Recorder.Documents.{matching, IsLawful}
use record_lib.Recorder.Documents.Counts.{Done-done}
use record_lib.Recorder.Documents.Treated.{
  matching-single, matching-Inserted, Updated-single, Single-hit,
}
use record_lib.Recorder.Process.{
  returned, m3u8_param, spawn_process, spawn_file, spawn_forked, send_message, process_reload,
  re_create_process, again_forked,
}

answers_differ : {a b : ProcessInfo} → ◌≡◌ {A = Bool × ProcessInfo} (false, a) (true, b) → ⊥
answers_differ h = cc

module _ (p : Platform) (l : IsLawful p) (opened : open_collection p ≡ handle) where
  open l use {docs}

  -- A stream's document is what the service reads of it.
  get_process_info_of_matching :
      (fresh : ProcessInfo) (sid : Bytes) (db : p.Db) (info : ProcessInfo) (server : ℕ)
      {more : List Bson}
      → matching (by_stream sid) (docs db) ≡ info_bson info server ∷ more
      → get_process_info p fresh sid db ≡ some (stored info server)
  unfolding get_process_info find_one
  get_process_info_of_matching fresh sid db info server f =
      rw (opened, l.find_lem, f, parser-info_bson p l info fresh server) refl

  -- The document of a new stream is the one that a search for it finds.
  add-matching :
      (info : ProcessInfo) (server : ℕ) (db : p.Db)
      → is_process_exist p info.sid db ≡ false
      → ((d : Bson) (db : p.Db) → (p.insert d db).0 ≡ true)
      → matching (by_stream info.sid) (docs (add_process_to_cache p info server db).1)
        ≡ info_bson info server ∷ []
  unfolding add_process_to_cache Adaptor.insert
  add-matching info server db new inserts =
      let d = info_bson info server in
      matching-Inserted (by_stream info.sid)
        (Done-done (insert-Done p l (open_collection p) d db) (rw opened (inserts d db))).1
        (info-stream info.sid info server ∙ bytes_eq_refl (c_str info.sid))
        (count-absent p l info.sid db opened new)

  -- Over a lawful database that can be opened and whose insertions succeed: spawn_process of a
  -- stream that has no document, with a playlist file that can be made and a fork answered in the
  -- parent, returns with a document from which get_process_info reads the stream, the new process
  -- number, the server's own number and the playlist, texts cut at a NUL; the queue is unchanged.
  pub spawn_process-recorded :
      (param fresh : ProcessInfo) (s : State p) {m3u8 : M3u8Param} {sys : p.Sys} {pid : ℕ}
      → is_process_exist p param.sid s.db ≡ false
      → create_m3u8 p (m3u8_param param) s.sys ≡ some ((error_ok, m3u8), sys)
      → (p.fork sys).0 ≡ parent pid
      → ((d : Bson) (db : p.Db) → (p.insert d db).0 ≡ true)
      → let started = record param { pid = pid; m3u8_path = m3u8.file_path } in
        let server = p.getpid (p.fork sys).1 in
        (s' : State p) × (spawn_process p param s ≡ some (returned error_ok s'))
        × (get_process_info p fresh param.sid s'.db ≡ some (stored started server))
        × (s'.queue ≡ s.queue)
  unfolding spawn_process spawn_file spawn_forked
  spawn_process-recorded param fresh s {m3u8} {sys} {pid} new file forked inserts =
      let started = record param { pid = pid; m3u8_path = m3u8.file_path } in
      let server = p.getpid (p.fork sys).1 in
      let db' = (add_process_to_cache p started server s.db).1 in
      (
        record s { db = db'; sys = (p.fork sys).1 },
        rw (new, file, forked) refl,
        get_process_info_of_matching fresh param.sid db' started server
            (add-matching started server s.db new inserts),
        refl,
      )

  -- The document that a search by the number finds, with its stream's.
  data Dead (pid : ℕ) (fresh : ProcessInfo) (db : p.Db) : Type 0 where
    nobody_dead : is_pid_exist p pid fresh db ≡ (false, fresh) → Dead pid fresh db
    dead :
        (info : ProcessInfo) (server : ℕ)
        → is_pid_exist p pid fresh db ≡ (true, stored info server)
        → matching (by_stream (stored info server).sid) (docs db) ≡ info_bson info server ∷ []
        → Dead pid fresh db

  Dead-of :
      (pid : ℕ) (fresh : ProcessInfo) (db : p.Db)
      → AllRecorded (docs db)
      → Unique (docs db)
      → Dead pid fresh db
  unfolding is_pid_exist
  Dead-of pid fresh db all u = elim (Search-one p l (by_pid pid) db p.empty_text) [
    | nobody n e ↦ nobody_dead (rw (opened, e) refl)
    | somebody d more m f n e ↦
        elim (subst AllRecorded f (matching-AllRecorded (by_pid pid) (docs db) all)).0 [
          | recorded info server r ↦
              dead info server (rw (opened, e, r, parser-info_bson p l info fresh server) refl) (
                matching-single (by_stream (c_str info.sid)) (by_pid pid) (docs db)
                  (f ∙ ap (λ (x : Bson). x ∷ more) r)
                  (info-stream (c_str info.sid) info server
                    ∙ rw c_str-c_str (bytes_eq_refl (c_str info.sid)))
                  (u (c_str info.sid)))
        ]
  ]

  read_updated :
      (fresh : ProcessInfo) (new_pid : ℕ) (db : p.Db) (info : ProcessInfo) (server : ℕ)
      → ((q change : Bson) (db : p.Db) → (p.update q change db).0 ≡ true)
      → Unique (docs db)
      → matching (by_stream (stored info server).sid) (docs db) ≡ info_bson info server ∷ []
      → let changed_info = record (stored info server) { pid = new_pid } in
        get_process_info p fresh changed_info.sid (update_process_info p changed_info db).1
        ≡ some changed_info
  unfolding update_process_info Adaptor.update
  read_updated fresh new_pid db info server updates u f =
      let sid = (stored info server).sid in
      get_process_info_of_matching fresh sid _ (record info { pid = new_pid }) server
        (Updated-single (by_stream sid)
          (Single-hit (by_stream sid)
            (Done-done (update-Done p l (open_collection p) (by_stream sid) (set_pid new_pid) db)
              (rw opened (updates (by_stream sid) (set_pid new_pid) db)))
            f)
          (u sid) f (set_pid-stream sid new_pid))

  -- Over a lawful database that can be opened and whose updates succeed, with documents written by
  -- the service and one at most per stream: when a process dies whose number a document has and
  -- fork answers in the parent with a new number, the stream's document holds the new number
  -- afterwards and is otherwise what it was, the old ppid included.
  pub send_message-restarts :
      (fresh fresh' : ProcessInfo) (pid new_pid : ℕ) (s : State p) {info : ProcessInfo}
      → AllRecorded (docs s.db)
      → Unique (docs s.db)
      → ((q change : Bson) (db : p.Db) → (p.update q change db).0 ≡ true)
      → is_pid_exist p pid fresh s.db ≡ (true, info)
      → (p.fork s.sys).0 ≡ parent new_pid
      → (s' : State p) × (send_message p fresh pid s ≡ returned error_ok s')
        × (get_process_info p fresh' info.sid s'.db ≡ some (record info { pid = new_pid }))
        × (s'.queue ≡ s.queue)
  unfolding send_message process_reload re_create_process again_forked
  send_message-restarts fresh fresh' pid new_pid s {info} all u updates found forked =
      let db' = (update_process_info p (record info { pid = new_pid }) s.db).1 in
      (
        record s { db = db'; sys = (p.fork s.sys).1 },
        rw (found, forked) refl,
        restarted (Dead-of pid fresh s.db all u),
        refl,
      )
    where
      restarted :
          Dead pid fresh s.db
          → get_process_info p fresh' info.sid
              (update_process_info p (record info { pid = new_pid }) s.db).1
            ≡ some (record info { pid = new_pid })
      restarted (nobody_dead e) = absurd (answers_differ (sym e ∙ found))
      restarted (dead i server e f) =
          subst
            (λ (x : ProcessInfo).
              get_process_info p fresh' x.sid
                (update_process_info p (record x { pid = new_pid }) s.db).1
              ≡ some (record x { pid = new_pid }))
            (ap (λ (x : Bool × ProcessInfo). x.1) (sym e ∙ found))
            (read_updated fresh' new_pid s.db i server updates u f)
