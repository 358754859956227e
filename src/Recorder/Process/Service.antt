-- ===== src/Recorder/Process/Service.antt =====
-- The service as it runs, src/app/record_control.cpp and src/app/process_manager.cpp: the calls of
-- its threads in any order, each as a whole, and what changes outside between them. A step of the
-- thread that forks goes on in the parent.
use record_lib.Base.{ℕ, ◌≡◌, some, List}
use record_lib.Recorder.{Bytes, ProcessInfo, Platform, State}
use record_lib.Recorder.Process.{
  returned, kill_process, sig_reap_chld, orphan_process_sync, put_data, queue_round,
}
use record_lib.Recorder.{ErrorCode}

module _ (p : Platform) where
  pub data Step (s : State p) : State p → Type 0 where
    -- A start request, and a stop request; `fresh` is uninitialised memory.
    starts : {s' : State p} (info : ProcessInfo) → (put_data p info s).1 ≡ s' → Step s s'
    stops :
        {s' : State p} (fresh : ProcessInfo) (sid : Bytes)
        → (kill_process p fresh sid s).1 ≡ s'
        → Step s s'
    -- The thread of the queue and that of the monitor, and the signal that children have died.
    spawns : {s' : State p} {ret : ErrorCode} → queue_round p s ≡ some (returned ret s') → Step s s'
    monitors :
        {s' : State p} {ret : ErrorCode} (fresh : ProcessInfo)
        → orphan_process_sync p fresh s ≡ returned ret s'
        → Step s s'
    dies :
        {s' : State p} {ret : ErrorCode} (fresh : ProcessInfo) (pids : List ℕ)
        → sig_reap_chld p fresh pids s ≡ returned ret s'
        → Step s s'
    -- Files are made, processes end.
    outside : {s' : State p} (sys : p.Sys) → record s { sys = sys } ≡ s' → Step s s'

  pub data Reach (s : State p) : State p → Type 0 where
    start : Reach s s
    next : {t u : State p} → Reach s t → Step t u → Reach s u
