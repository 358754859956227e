-- ===== src/Recorder/Process/Drains.antt =====
-- The thread of the queue in src/app/process_manager.cpp comes to its end.
use mathlib.Core.Path.{subst}
use record_lib.Base.{
  sym, ◌<◌, ◌≡◌, refl, inl, inr, true, Option, List, [], ◌∷◌, arith, Bool-cases, ltb, length,
  Returns, returns, bind, ap,
}
use record_lib.Recorder.{c_str, ProcessInfo, M3u8Param, Platform, State}
use record_lib.Recorder.Files.{multi_mkdir, create_m3u8}
use record_lib.Recorder.Store.{is_process_exist}
use record_lib.Recorder.Process
use record_lib.Recorder.Process.{
  Outcome, replaced, m3u8_param, popped, then_rounds, spawn_process, queue_turn, queue_round,
  process_queue,
}

-- The paths of the requests fit the array of `multi_mkdir`.
abbrev pub AllShort : List ProcessInfo → Type 0
AllShort [] = Unit
AllShort (info ∷ more) = (length (c_str info.m3u8_path) < 512) × AllShort more

module _ (p : Platform) where
  -- The call does not fault.
  abbrev Runs : {A : Type 0} → Option A → Type 0
  Runs = Returns (λ _. Unit {0})

  create_m3u8-Runs :
      (param : M3u8Param) (sys : p.Sys)
      → length (c_str param.path) < 512
      → Runs (create_m3u8 p param sys)
  unfolding create_m3u8 multi_mkdir
  create_m3u8-Runs param sys h = elim (Bool-cases (p.opendir (c_str param.path) sys)) [
    | inl e ↦ rw e (returns tt)
    | inr e ↦
        let fits : ltb (length (c_str param.path)) 512 ≡ true = ground arith in
        rw (e, fits) (returns tt)
  ]

  spawn_process-Runs :
      (param : ProcessInfo) (s : State p)
      → length (c_str param.m3u8_path) < 512
      → Runs (spawn_process p param s)
  unfolding spawn_process
  spawn_process-Runs param s h = elim (Bool-cases (is_process_exist p param.sid s.db)) [
    | inl e ↦ rw e (returns tt)
    | inr e ↦ rw e (bind (create_m3u8-Runs (m3u8_param param) s.sys h) (λ r _. returns tt))
  ]

  -- No request is left in the process that the loop ends in.
  abbrev pub Drained : Outcome p → Type 0
  Drained (Process.returned ret s) = s.queue ≡ []
  Drained (replaced cmd) = Unit

  queue_turn-popped :
      (info : ProcessInfo) (more : List ProcessInfo) (s : State p)
      → length (c_str info.m3u8_path) < 512
      → Returns (λ r. (o : Outcome p) × (r ≡ popped p more o)) (queue_turn p (info ∷ more) s)
  unfolding queue_turn
  queue_turn-popped info more s short =
      bind (spawn_process-Runs info s short) (λ o _. returns (o, refl))

  drains :
      (queue : List ProcessInfo) (s : State p)
      → s.queue ≡ queue
      → AllShort queue
      → Returns Drained (process_queue p (length queue) s)
  unfolding process_queue queue_round
  drains [] s e h = returns e
  drains (info ∷ more) s e (short, h) =
      let turn : queue_turn p s.queue s ≡ queue_turn p (info ∷ more) s =
        ap (λ q. queue_turn p q s) e in
      bind
        (subst (Returns (λ r. (o : Outcome p) × (r ≡ popped p more o))) (sym turn)
          (queue_turn-popped info more s short))
        (λ r (o, popped_o).
          subst
            (λ (x : Outcome p). Returns Drained (then_rounds p (process_queue p (length more)) x))
            (sym popped_o) (rest o (λ s'. drains more (record s' { queue = more }) refl h)))
    where
      rest :
          (o : Outcome p)
          → ((s' : State p)
              → Returns Drained (process_queue p (length more) (record s' { queue = more })))
          → Returns Drained (then_rounds p (process_queue p (length more)) (popped p more o))
      rest (Process.returned ret s') next = next s'
      rest (replaced cmd) next = returns tt

  -- When the path of every waiting request has less than 512 bytes, the inner loop of
  -- process_queue, given as many rounds as requests wait, ends without a fault, and unless the
  -- process has become the command of a child, no request is left.
  pub process_queue-Drained :
      (s : State p) → AllShort s.queue → Returns Drained (process_queue p (length s.queue) s)
  process_queue-Drained s h = drains s.queue s refl h
