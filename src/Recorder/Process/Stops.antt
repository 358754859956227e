-- ===== src/Recorder/Process/Stops.antt =====
-- `kill_process` of src/app/process_manager.cpp: what a stop request changes, and that the death that
-- it causes starts nothing again.
use mathlib.Core.Path.{subst}
use record_lib.Base.{
  ℕ, ◌≤◌, ◌≡◌, refl, ap, sym, ◌∙◌, true, false, none, some, List, [], ◌∷◌, if◌then◌else◌, arith,
}
use record_lib.Recorder.{
  Bytes, c_str, ProcessInfo, error_ok, stream_not_exist, utf8, Bson, Platform, State,
}
use record_lib.Recorder.Adaptor
use record_lib.Recorder.Adaptor.{handle, find_one}
use record_lib.Recorder.Store.{
  by_stream, by_pid, info_bson, open_collection, remove_process_by_stream, is_process_exist,
  get_process_info,
}
use record_lib.Recorder.Store.Records.{Unique, remove-Done}
use record_lib.Recorder.Store.Reads.{AllRecorded, stored}
use record_lib.Recorder.Store.Streams.{
  is_process_exist_of_absent, is_pid_exist_of_absent, c_str-c_str, unknown, known, Stream-of,
}
use record_lib.Recorder.Documents.{matches, count, matching, IsLawful, Removed, Single}
use record_lib.Recorder.Documents.Counts.{Done-done, count-Removed_self}
use record_lib.Recorder.Documents.Treated.{Removed-single, Single-hit}
use record_lib.Recorder.Process.{returned, kill_process, send_message}

info-pid :
    (info : ProcessInfo) (server : ℕ) → matches (by_pid info.pid) (info_bson info server) ≡ true
info-pid info server = ground arith

none_ne : {a : ProcessInfo} → none ≡ some a → ⊥
none_ne h = cc

some_inj : {a b : ProcessInfo} → some a ≡ some b → a ≡ b
some_inj h = cc

module _ (p : Platform) (l : IsLawful p) (opened : open_collection p ≡ handle)
    (removes : (q : Bson) (db : p.Db) → (p.remove q db).0 ≡ true) where
  open l use {docs}

  -- The query by the stream that the document names is the query of the request.
  same_query :
      (sid : Bytes) (info : ProcessInfo)
      → c_str sid ≡ c_str info.sid
      → by_stream (c_str info.sid) ≡ by_stream sid
  same_query sid info e = ap (λ t. ("stream_id", utf8 t) ∷ []) (c_str-c_str info.sid ∙ sym e)

  removes_stream : (q : Bson) (db : p.Db) → (Adaptor.remove p (open_collection p) q db).0 ≡ true
  unfolding Adaptor.remove
  removes_stream q db = rw opened (removes q db)

  removed :
      (sid : Bytes) (db : p.Db)
      → Single
          (by_stream sid)
          (Removed (by_stream sid))
          (docs db)
          (docs (remove_process_by_stream p sid db).1)
  unfolding remove_process_by_stream
  removed sid db =
      Done-done (remove-Done p l (open_collection p) (by_stream sid) db)
        (removes_stream (by_stream sid) db)

  -- The two results of a stop request.
  data Killed (fresh : ProcessInfo) (sid : Bytes) (s : State p) : Type 0 where
    refused :
        is_process_exist p sid s.db ≡ false
        → get_process_info p fresh sid s.db ≡ none
        → kill_process p fresh sid s ≡ (stream_not_exist, s)
        → Killed fresh sid s
    killed :
        (info : ProcessInfo) (server : ℕ) (more : List Bson) (db : p.Db)
        → is_process_exist p sid s.db ≡ true
        → get_process_info p fresh sid s.db ≡ some (stored info server)
        → matching (by_stream sid) (docs s.db) ≡ info_bson info server ∷ more
        → kill_process p fresh sid s
          ≡ (error_ok, record s { db = db; sys = p.interrupt info.pid s.sys })
        → Single (by_stream sid) (Removed (by_stream sid)) (docs s.db) (docs db)
        → Killed fresh sid s

  kill_process-Killed :
      (fresh : ProcessInfo) (sid : Bytes) (s : State p)
      → AllRecorded (docs s.db)
      → Killed fresh sid s
  unfolding kill_process
  kill_process-Killed fresh sid s all = elim (Stream-of p l sid s.db opened all) [
    | unknown n e g ↦ refused e (g fresh) (rw (g fresh, kill_process) refl)
    | known info server more same f e g ↦
        killed info server more (remove_process_by_stream p (c_str info.sid) s.db).1 e (g fresh) f
          (rw (g fresh, kill_process) refl)
          (subst
            (λ q.
              Single q (Removed q) (docs s.db)
                (docs (remove_process_by_stream p (c_str info.sid) s.db).1))
            (same_query sid info same) (removed (c_str info.sid) s.db))
  ]

  -- The result of kill_process is whether a document with the stream is there, and none is there after.
  pub kill_process-gone :
      (fresh : ProcessInfo) (sid : Bytes) (s : State p)
      → AllRecorded (docs s.db)
      → Unique (docs s.db)
      → ((kill_process p fresh sid s).0
          ≡ (if is_process_exist p sid s.db then error_ok else stream_not_exist))
        × (is_process_exist p sid (kill_process p fresh sid s).1.db ≡ false)
  kill_process-gone fresh sid s all u = elim (kill_process-Killed fresh sid s all) [
    | refused e g k ↦ rw (k, e) (refl, refl)
    | killed info server more db e g f k r ↦
        rw (k, e)
          (
            refl,
            is_process_exist_of_absent p l sid db opened
                (omega (arith, count-Removed_self (by_stream sid) r, u sid)),
          )
  ]

  -- Over a lawful database that can be opened and whose removals succeed, with documents written
  -- by the service and one at most per stream: when kill_process stops a stream whose process
  -- number no second document has, the death of that process, which the signal causes, starts
  -- nothing again and changes nothing.
  pub kill_process-stays_dead :
      (fresh fresh' : ProcessInfo) (sid : Bytes) (s : State p) {info : ProcessInfo}
      → AllRecorded (docs s.db)
      → Unique (docs s.db)
      → get_process_info p fresh sid s.db ≡ some info
      → count (by_pid info.pid) (docs s.db) ≤ 1
      → send_message p fresh' info.pid (kill_process p fresh sid s).1
        ≡ returned error_ok (kill_process p fresh sid s).1
  unfolding send_message
  kill_process-stays_dead fresh fresh' sid s {info} all u read one =
      elim (kill_process-Killed fresh sid s all) [
        | refused e g k ↦ absurd (none_ne (sym g ∙ read))
        | killed info' server more db e g f k r ↦
            let same : stored info' server ≡ info = some_inj (sym g ∙ read) in
            let was : matches (by_pid info.pid) (info_bson info' server) ≡ true =
              subst (λ n. matches (by_pid n) (info_bson info' server) ≡ true)
                (ap (λ (i : ProcessInfo). i.pid) same) (info-pid info' server) in
            let gone : count (by_pid info.pid) (docs db) ≡ 0 = omega (
              arith,
              rw was at (
                  Removed-single (by_stream sid) (Single-hit (by_stream sid) r f) (u sid) f
                    (by_pid info.pid)),
            ) in
            rw k (rw (is_pid_exist_of_absent p l info.pid fresh' db opened gone, send_message) refl)
      ]
