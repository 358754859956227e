-- ===== src/Recorder/Process.antt =====
-- The processes of `ProcessManager`, src/app/process_manager.cpp: one `ffmpeg` per stream, its
-- death and its end. An operation that forks returns in both processes; the answer of `fork` says in
-- which of them the model goes on. `none` is a fault.
pub mod Service
pub mod Kept
pub mod Unique
pub mod Stops
pub mod Restarts
pub mod Drains
use record_lib.Base.{
  ℕ, zero, suc, Bool, true, false, not, Option, none, some, List, [], ◌∷◌, ◌++◌, if◌then◌else◌,
  ◌>>=◌,
}
use record_lib.Recorder.{
  Bytes, codes, c_str, ProcessInfo, M3u8Param, ErrorCode, error_ok, stream_exist, fork_failed,
  stream_not_exist, internal_error, Forked, failed, parent, child, Platform, State,
}
use record_lib.Recorder.Files.{snprintf, create_m3u8}
use record_lib.Recorder.Store.{
  add_process_to_cache, update_process_info, remove_process_by_stream, is_process_exist,
  is_pid_exist, get_process_info, find_orphan_process,
}

-- A call returns, or the image of the process is replaced by that of a command.
pub data Outcome (p : Platform) : Type 0 where
  returned : ErrorCode → State p → Outcome p
  replaced : (cmd : Bytes) → Outcome p

abbrev pub m3u8_param : ProcessInfo → M3u8Param
m3u8_param param = record { path = param.m3u8_path; sid = param.sid; file_path = [] }

-- The command of a stream.
unfoldable pub ffmpeg : (src_url m3u8_path : Bytes) → Bytes
ffmpeg src_url m3u8_path = snprintf 1024 (
    codes "/home/develop/tools/tmp/ffmpeg_3.3.3/bin/ffmpeg -i "
    ++ (c_str src_url
        ++ (codes
              " -vcodec copy -acodec copy -map 0 -f hls -hls_list_size 0 -hls_wrap 0 -hls_time 3 "
            ++ c_str m3u8_path)))

-- The command of a stream that is started again has one blank more.
unfoldable pub ffmpeg_again : (src_url m3u8_path : Bytes) → Bytes
ffmpeg_again src_url m3u8_path = snprintf 1024 (
    codes "/home/develop/tools/tmp/ffmpeg_3.3.3/bin/ffmpeg -i "
    ++ (c_str src_url
        ++ (codes
              " -vcodec copy -acodec copy -map 0 -f hls  -hls_list_size 0 -hls_wrap 0 -hls_time 3 "
            ++ c_str m3u8_path)))

module _ (p : Platform) where
  open p use {Sys, getpid, fork, exec, exists, interrupt}

  -- A command that cannot be run leaves the child in the caller's code.
  pub launch : Bytes → State p → Outcome p
  launch cmd s = if exec cmd s.sys then replaced cmd else returned error_ok s

  -- What both processes do behind the `fork` of `spawn_process`.
  pub spawn_forked : ProcessInfo → M3u8Param → Forked → State p → Outcome p
  unfolding launch
  spawn_forked param m3u8 failed s = returned fork_failed s
  spawn_forked param m3u8 (parent pid) s =
      let param' = record param { pid = pid; m3u8_path = m3u8.file_path } in
      let (ret, db') = add_process_to_cache p param' (getpid s.sys) s.db in
      returned error_ok (record s { db = db' })
  spawn_forked param m3u8 child s = launch (ffmpeg param.src_url m3u8.file_path) s

  spawn_file : ProcessInfo → (ErrorCode × M3u8Param) → State p → Outcome p
  unfolding spawn_forked
  spawn_file param (error_ok, m3u8) s =
      let (answer, sys') = fork s.sys in spawn_forked param m3u8 answer (record s { sys = sys' })
  spawn_file param (ret, m3u8) s = returned ret s

  unfoldable pub spawn_process : ProcessInfo → State p → Option (Outcome p)
  unfolding spawn_file
  spawn_process param s =
      if is_process_exist p param.sid s.db then some (returned stream_exist s) else do
        (result, sys') ← create_m3u8 p (m3u8_param param) s.sys
        some (spawn_file param result (record s { sys = sys' }))

  pub again_forked : ProcessInfo → Forked → State p → Outcome p
  unfolding launch
  again_forked param failed s = returned fork_failed s
  again_forked param (parent pid) s =
      let (ret, db') = update_process_info p (record param { pid = pid }) s.db in
      returned error_ok (record s { db = db' })
  again_forked param child s = launch (ffmpeg_again param.src_url param.m3u8_path) s

  unfoldable pub re_create_process : ProcessInfo → State p → Outcome p
  unfolding again_forked
  re_create_process param s =
      let (answer, sys') = fork s.sys in again_forked param answer (record s { sys = sys' })

  -- The result of the call is dropped.
  abbrev pub ignore : Outcome p → Outcome p
  ignore (returned ret s) = returned error_ok s
  ignore (replaced cmd) = replaced cmd

  abbrev pub popped : List ProcessInfo → Outcome p → Outcome p
  popped more (returned ret s) = returned ret (record s { queue = more })
  popped more (replaced cmd) = replaced cmd

  unfoldable pub process_reload : ProcessInfo → State p → Outcome p
  unfolding re_create_process
  process_reload info s = ignore (re_create_process info s)

  unfoldable pub kill_process : (fresh : ProcessInfo) → Bytes → State p → ErrorCode × State p
  kill_process fresh sid s = elim (get_process_info p fresh sid s.db) [
    | none ↦ (stream_not_exist, s)
    | some process ↦
        let (ret, db') = remove_process_by_stream p process.sid s.db in
        (error_ok, record s { db = db'; sys = interrupt process.pid s.sys })
  ]

  -- `send_message` of the message that a child has died, which `sig_reap_chld` sends.
  unfoldable pub send_message : (fresh : ProcessInfo) → (pid : ℕ) → State p → Outcome p
  unfolding process_reload
  send_message fresh pid s =
      let (found, info) = is_pid_exist p pid fresh s.db in
      if found then process_reload info s else returned error_ok s

  -- What follows a call in the process that it returns in.
  abbrev pub and_then : Outcome p → (State p → Outcome p) → Outcome p
  and_then (returned ret s) f = f s
  and_then (replaced cmd) f = replaced cmd

  -- The signal handler, for the numbers that `waitpid` gives.
  unfoldable pub sig_reap_chld : (fresh : ProcessInfo) → List ℕ → State p → Outcome p
  unfolding send_message
  sig_reap_chld fresh [] s = returned error_ok s
  sig_reap_chld fresh (pid ∷ pids) s =
      and_then (send_message fresh pid s) (sig_reap_chld fresh pids)

  pub check_system_process_exist : ℕ → State p → Bool
  check_system_process_exist pid s = exists pid s.sys

  -- The round of `orphan_process_sync` for one process, and the loop.
  orphan_round : (fresh : ProcessInfo) → (pid : ℕ) → State p → Outcome p
  unfolding send_message check_system_process_exist
  orphan_round fresh pid s =
      if check_system_process_exist pid s then returned error_ok s else send_message fresh pid s

  pub orphan_loop : (fresh : ProcessInfo) → List ProcessInfo → State p → Outcome p
  unfolding orphan_round
  orphan_loop fresh [] s = returned error_ok s
  orphan_loop fresh (orphan ∷ more) s =
      and_then (orphan_round fresh orphan.pid s) (orphan_loop fresh more)

  unfoldable pub orphan_process_sync : (fresh : ProcessInfo) → State p → Outcome p
  unfolding orphan_loop
  orphan_process_sync fresh s =
      let (ret, orphan) = find_orphan_process p fresh (getpid s.sys) s.db in
      orphan_loop fresh orphan s

  unfoldable pub put_data : ProcessInfo → State p → ErrorCode × State p
  put_data param s = (error_ok, record s { queue = s.queue ++ (param ∷ []) })

  -- A round of the inner loop of `process_queue`: the front is spawned, then popped.
  unfoldable pub queue_turn : List ProcessInfo → State p → Option (Outcome p)
  unfolding spawn_process
  queue_turn [] s = some (returned error_ok s)
  queue_turn (e ∷ more) s = do r ← spawn_process e s; some (popped more r)

  unfoldable pub queue_round : State p → Option (Outcome p)
  unfolding queue_turn
  queue_round s = queue_turn s.queue s

  abbrev pub then_rounds : (State p → Option (Outcome p)) → Outcome p → Option (Outcome p)
  then_rounds f (returned ret s) = f s
  then_rounds f (replaced cmd) = some (replaced cmd)

  -- The inner loop, on as many rounds as requests wait.
  unfoldable pub process_queue : (rounds : ℕ) → State p → Option (Outcome p)
  unfolding queue_round
  process_queue zero s = some (returned error_ok s)
  process_queue (suc rounds) s = do r ← queue_round s; then_rounds (process_queue rounds) r
