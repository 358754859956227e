-- ===== src/Recorder/Http/Replies.antt =====
-- What the handlers of src/app/record_control.cpp reply, and what their requests change.
use mathlib.Core.Path.{subst}
use record_lib.Base.{
  ℕ, zero, suc, IfAny, IfAny-bind, ◌≤◌, ◌<◌, ◌≡◌, ◌⊎◌, refl, inl, inr, true, false, Option, none,
  some, [], ◌∷◌, ◌++◌, if◌then◌else◌, arith, Bool-cases, Option-cases, length, take,
}
use record_lib.Recorder.{
  Bytes, c_str, ProcessInfo, AppData, ErrorCode, error_ok, stream_not_exist, Bson, Platform, State,
}
use record_lib.Recorder.Adaptor.{handle}
use record_lib.Recorder.Files.{snprintf}
use record_lib.Recorder.Store.{open_collection, is_process_exist}
use record_lib.Recorder.Store.Records.{Unique}
use record_lib.Recorder.Store.Reads.{AllRecorded}
use record_lib.Recorder.Documents.{IsLawful}
use record_lib.Recorder.Process.{put_data, kill_process}
use record_lib.Recorder.Process.Stops.{kill_process-gone}
use record_lib.Recorder.Http.{
  Reply, http_body_null, input_no_match, success, start_reply, stop_reply, start_param,
  start_parsed, stop_parsed, start_record, stop_record,
}

length-take : (n : ℕ) (xs : Bytes) → length (take n xs) ≤ n
length-take zero xs = omega arith
length-take (suc n) [] = omega arith
length-take (suc n) (x ∷ xs) = omega (arith, length-take n xs)

length-c_str : (s : Bytes) → length (c_str s) ≤ length s
unfolding c_str
length-c_str [] = omega arith
length-c_str (c ∷ cs) = ground (arith, length-c_str cs)

module _ (p : Platform) where
  -- The path of an accepted request is cut to 255 bytes.
  IsShort : ProcessInfo → Type 0
  IsShort info = length (c_str info.m3u8_path) < 256

  start_param-IsShort : (root : p.Root) (app : AppData) → IfAny IsShort (start_param p root app)
  unfolding start_param IsShort
  start_param-IsShort root app = IfAny-bind IsShort (p.as_string root "src") _ λ src.
      IfAny-bind IsShort (p.as_string root "path") _ λ path.
        IfAny-bind IsShort (p.as_string root "streamcode") _ λ sid.
          IfAny-bind IsShort (p.as_string root "type") _ λ type. omega (
            arith,
            length-c_str (snprintf 256 (c_str app.root_path ++ c_str path)),
            length-take 255 (c_str app.root_path ++ c_str path),
          )

  -- What a start request may lead to.
  abbrev Started : State p → Reply × State p → Type 0
  Started s (r, s') =
      ((r.status ≡ 400) × (s' ≡ s))
      ⊎ ((r.status ≡ 200)
          × ((info : ProcessInfo) × (s' ≡ record s { queue = s.queue ++ (info ∷ []) })
              × (length (c_str info.m3u8_path) < 256)))

  start_record-Started :
      (app : AppData) (body : Option p.Text) (s : State p)
      → IfAny (Started s) (start_record p app body s)
  unfolding IsShort start_record start_parsed start_reply put_data http_body_null input_no_match
      success
  start_record-Started app none s = inl (refl, refl)
  start_record-Started app (some body) s = parsed (p.parse body)
    where
      parsed : (root : Option p.Root) → IfAny (Started s) (start_parsed p app root s)
      parsed none = inl (refl, refl)
      parsed (some root) = elim (Option-cases (start_param p root app)) [
        | inl e ↦ rw e tt
        | inr (info, e) ↦
            rw e (inr (refl, (info, refl, subst (IfAny IsShort) e (start_param-IsShort root app))))
      ]

  -- A start request that is answered is either refused with 400 and changes nothing, or answered
  -- 200 with one more entry at the end of the queue, whose path has less than 256 bytes, and
  -- nothing else changed: the reply 403 for a stream that exists is never given.
  pub start_record-reply :
      (app : AppData) (body : Option p.Text) (s : State p) {r : Reply} {s' : State p}
      → start_record p app body s ≡ some (r, s')
      → ((r.status ≡ 400) × (s' ≡ s))
        ⊎ ((r.status ≡ 200)
            × ((info : ProcessInfo) × (s' ≡ record s { queue = s.queue ++ (info ∷ []) })
                × (length (c_str info.m3u8_path) < 256)))
  start_record-reply app body s h = subst (IfAny (Started s)) h (start_record-Started app body s)

module _ (p : Platform) (l : IsLawful p) (opened : open_collection p ≡ handle)
    (removes : (q : Bson) (db : p.Db) → (p.remove q db).0 ≡ true) where
  stop_status :
      (sid : Bytes) (s : State p) (code : ErrorCode)
      → code ≡ (if is_process_exist p sid s.db then error_ok else stream_not_exist)
      → (stop_reply code).status ≡ (if is_process_exist p sid s.db then 200 else 404)
  unfolding stop_reply success
  stop_status sid s code e = elim (Bool-cases (is_process_exist p sid s.db)) [
    | inl h ↦ rw (e, h) refl
    | inr h ↦ rw (e, h) refl
  ]

  -- Over a lawful database that can be opened and whose removals succeed, with documents written
  -- by the service and one at most per stream: a stop request whose JSON text names a source and a
  -- stream is answered 200 if the stream has a document and 404 if not, and has none afterwards.
  pub stop_record-reply :
      (fresh : ProcessInfo) (body : p.Text) (s : State p) {root : p.Root} {src sid : Bytes}
      → AllRecorded (l.docs s.db)
      → Unique (l.docs s.db)
      → p.parse body ≡ some root
      → p.as_string root "src" ≡ some src
      → p.as_string root "streamcode" ≡ some sid
      → (r : Reply) × (s' : State p) × (stop_record p fresh (some body) s ≡ some (r, s'))
        × (r.status ≡ (if is_process_exist p sid s.db then 200 else 404))
        × (is_process_exist p sid s'.db ≡ false)
  unfolding stop_record stop_parsed
  stop_record-reply fresh body s {root} {src} {sid} all u parsed source code =
      let (status, gone) = kill_process-gone p l opened removes fresh sid s all u in
      let result = kill_process p fresh sid s in
      (
        stop_reply result.0,
        result.1,
        rw (parsed, stop_parsed, source, code) refl,
        stop_status sid s result.0 status,
        gone,
      )
