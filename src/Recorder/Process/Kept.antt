-- ===== src/Recorder/Process/Kept.antt =====
-- What every step of the service of src/app/process_manager.cpp keeps of the database, if the three
-- methods that write to it keep it.
use mathlib.Core.Path.{subst}
use record_lib.Base.{
  ℕ, ◌≡◌, ap, false, Option, none, some, List, [], ◌∷◌, ◌>>=◌, Bool-cases, Option-cases, inl, inr,
}
use record_lib.Recorder.{
  Bytes, ProcessInfo, M3u8Param, ErrorCode, error_ok, Forked, failed, parent, child, Platform,
  State,
}
use record_lib.Recorder.Store.{
  add_process_to_cache, update_process_info, remove_process_by_stream, is_process_exist,
  get_process_info, is_pid_exist,
}
use record_lib.Recorder.Files.{create_m3u8}
use record_lib.Recorder.Process.{
  sig_reap_chld, check_system_process_exist, Outcome, returned, replaced, launch, spawn_forked,
  spawn_file, spawn_process, again_forked, ignore, popped, re_create_process, process_reload,
  kill_process, send_message, orphan_round, orphan_loop, orphan_process_sync, and_then, put_data,
  queue_round, queue_turn, m3u8_param,
}
use record_lib.Recorder.Process.Service.{
  Step, starts, stops, spawns, monitors, dies, outside, Reach, start, next,
}

module _ (p : Platform) (K : p.Db → Type 0) where
  -- The writes keep `K`; a document is added for a stream that is not found only.
  pub record Writes : Type 0 where
    pub added :
        (info : ProcessInfo) (server : ℕ) (db : p.Db)
        → is_process_exist p info.sid db ≡ false
        → K db
        → K (add_process_to_cache p info server db).1
    pub updated : (info : ProcessInfo) (db : p.Db) → K db → K (update_process_info p info db).1
    pub removed : (sid : Bytes) (db : p.Db) → K db → K (remove_process_by_stream p sid db).1

  -- `K` holds where a call returns.
  abbrev Ends : Outcome p → Type 0
  Ends (returned ret s) = K s.db
  Ends (replaced cmd) = Unit

  abbrev MayFault : Option (Outcome p) → Type 0
  MayFault none = Unit
  MayFault (some r) = Ends r

  module _ (w : Writes) where
    launch-Ends : (cmd : Bytes) (s : State p) → K s.db → Ends (launch p cmd s)
    unfolding launch
    launch-Ends cmd s k = elim (Bool-cases (p.exec cmd s.sys)) [ inl e ↦ rw e tt | inr e ↦ rw e k ]

    again-Ends :
        (info : ProcessInfo) (answer : Forked) (s : State p)
        → K s.db
        → Ends (again_forked p info answer s)
    unfolding again_forked
    again-Ends info failed s k = k
    again-Ends info (parent pid) s k = w.updated _ s.db k
    again-Ends info child s k = launch-Ends _ s k

    ignore-Ends : (o : Outcome p) → Ends o → Ends (ignore p o)
    ignore-Ends (returned ret s) k = k
    ignore-Ends (replaced cmd) k = tt

    pub reload-Ends : (info : ProcessInfo) (s : State p) → K s.db → Ends (process_reload p info s)
    unfolding process_reload re_create_process
    reload-Ends info s k =
        ignore-Ends (re_create_process p info s) (again-Ends info (p.fork s.sys).0 _ k)

    pub message-Ends :
        (fresh : ProcessInfo) (pid : ℕ) (s : State p) → K s.db → Ends (send_message p fresh pid s)
    unfolding send_message
    message-Ends fresh pid s k = elim (Bool-cases (is_pid_exist p pid fresh s.db).0) [
      | inl e ↦ rw e (reload-Ends (is_pid_exist p pid fresh s.db).1 s k)
      | inr e ↦ rw e k
    ]

    and_then-Ends :
        (o : Outcome p) (f : State p → Outcome p)
        → Ends o
        → ((s : State p) → K s.db → Ends (f s))
        → Ends (and_then p o f)
    and_then-Ends (returned ret s) f k h = h s k
    and_then-Ends (replaced cmd) f k h = tt

    pub reap-Ends :
        (fresh : ProcessInfo) (pids : List ℕ) (s : State p)
        → K s.db
        → Ends (sig_reap_chld p fresh pids s)
    unfolding sig_reap_chld
    reap-Ends fresh [] s k = k
    reap-Ends fresh (pid ∷ pids) s k =
        and_then-Ends (send_message p fresh pid s) (sig_reap_chld p fresh pids)
          (message-Ends fresh pid s k) (reap-Ends fresh pids)

    round-Ends :
        (fresh : ProcessInfo) (pid : ℕ) (s : State p) → K s.db → Ends (orphan_round p fresh pid s)
    unfolding orphan_round check_system_process_exist
    round-Ends fresh pid s k = elim (Bool-cases (p.exists pid s.sys)) [
      | inl e ↦ rw e k
      | inr e ↦ rw e (message-Ends fresh pid s k)
    ]

    loop-Ends :
        (fresh : ProcessInfo) (vec : List ProcessInfo) (s : State p)
        → K s.db
        → Ends (orphan_loop p fresh vec s)
    unfolding orphan_loop
    loop-Ends fresh [] s k = k
    loop-Ends fresh (orphan ∷ more) s k =
        and_then-Ends (orphan_round p fresh orphan.pid s) (orphan_loop p fresh more)
          (round-Ends fresh orphan.pid s k) (loop-Ends fresh more)

    pub sync-Ends :
        (fresh : ProcessInfo) (s : State p) → K s.db → Ends (orphan_process_sync p fresh s)
    unfolding orphan_process_sync
    sync-Ends fresh s k = loop-Ends fresh _ s k

    forked-Ends :
        (info : ProcessInfo) (m3u8 : M3u8Param) (answer : Forked) (s : State p)
        → is_process_exist p info.sid s.db ≡ false
        → K s.db
        → Ends (spawn_forked p info m3u8 answer s)
    unfolding spawn_forked
    forked-Ends info m3u8 failed s new k = k
    forked-Ends info m3u8 (parent pid) s new k = w.added _ _ s.db new k
    forked-Ends info m3u8 child s new k = launch-Ends _ s k

    file-Ends :
        (info : ProcessInfo) (ret : ErrorCode) (m3u8 : M3u8Param) (s : State p)
        → is_process_exist p info.sid s.db ≡ false
        → K s.db
        → Ends (spawn_file p info (ret, m3u8) s)
    unfolding spawn_file
    file-Ends info error_ok m3u8 s new k = forked-Ends info m3u8 (p.fork s.sys).0 _ new k
    file-Ends info _ m3u8 s new k = k

    pub spawn-Ends : (info : ProcessInfo) (s : State p) → K s.db → MayFault (spawn_process p info s)
    unfolding spawn_process
    spawn-Ends info s k = elim (Bool-cases (is_process_exist p info.sid s.db)) [
      | inl e ↦ rw e k
      | inr e ↦ elim (Option-cases (create_m3u8 p (m3u8_param info) s.sys)) [
        | inl c ↦ rw (e, c) tt
        | inr (((ret, m3u8), sys'), c) ↦ rw (e, c) (file-Ends info ret m3u8 _ e k)
      ]
    ]

    popped-Ends :
        (more : List ProcessInfo) (r : Option (Outcome p))
        → MayFault r
        → MayFault (do o ← r; some (popped p more o))
    popped-Ends more none k = tt
    popped-Ends more (some (returned ret s)) k = k
    popped-Ends more (some (replaced cmd)) k = tt

    turn-Ends : (queue : List ProcessInfo) (s : State p) → K s.db → MayFault (queue_turn p queue s)
    unfolding queue_turn
    turn-Ends [] s k = k
    turn-Ends (e ∷ more) s k = popped-Ends more (spawn_process p e s) (spawn-Ends e s k)

    kill-Ends :
        (fresh : ProcessInfo) (sid : Bytes) (s : State p)
        → K s.db
        → K (kill_process p fresh sid s).1.db
    unfolding kill_process
    kill-Ends fresh sid s k = elim (Option-cases (get_process_info p fresh sid s.db)) [
      | inl e ↦ rw (e, kill_process) k
      | inr (info, e) ↦ rw (e, kill_process) (w.removed info.sid s.db k)
    ]

    -- A step of the service keeps what its writes keep.
    step-keeps : {s s' : State p} → Step p s s' → K s.db → K s'.db
    unfolding put_data queue_round
    step-keeps {s} (starts info e) k = subst K (ap (λ (t : State p). t.db) e) k
    step-keeps {s} (stops fresh sid e) k =
        subst K (ap (λ (t : State p). t.db) e) (kill-Ends fresh sid s k)
    step-keeps {s} (spawns e) k = subst MayFault e (turn-Ends s.queue s k)
    step-keeps {s} (monitors fresh e) k = subst Ends e (sync-Ends fresh s k)
    step-keeps {s} (dies fresh pids e) k = subst Ends e (reap-Ends fresh pids s k)
    step-keeps {s} (outside sys e) k = subst K (ap (λ (t : State p). t.db) e) k

    pub reach-keeps : {s s' : State p} → Reach p s s' → K s.db → K s'.db
    reach-keeps start k = k
    reach-keeps (next r st) k = step-keeps st (reach-keeps r k)
