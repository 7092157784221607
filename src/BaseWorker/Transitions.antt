-- ===== src/BaseWorker/Transitions.antt =====
-- cBaseWorker_V2.h: the state machine that callers of `getState` see.
use thread_component.Prelude.{◌≡◌, subst, Bool, true, false, List, ◌∷◌, ◌++◌, arith}
use thread_component.BaseWorker.{
  State, starting, running, stopping, stopped, Worker, Pc, pre_run, enter, body, Choice, completes,
  refuses, raises, request_stop, start_locked, take_finished, take_thread, is_running, thread_step,
}
use thread_component.BaseWorker.Places.{fits, known, All, All-append-right}
use thread_component.BaseWorker.Invariant.{Inv, Reach-Inv}
use thread_component.BaseWorker.System.{
  System, initial, start, Step, stops, starts, joins_finished, joins, advances, Reach,
}

-- The changes of state that one step can make. `Stopping` can go back to `Running`: see
-- `stop_overwritten`.
abbrev pub allowed : State → State → Bool
allowed stopped stopped = true
allowed stopped starting = true
allowed starting starting = true
allowed starting running = true
allowed starting stopping = true
allowed starting stopped = true
allowed running running = true
allowed running stopping = true
allowed running stopped = true
allowed stopping stopping = true
allowed stopping running = true
allowed stopping stopped = true
allowed _ _ = false

module _ {E : Type 0} where
  advance-allowed :
      (c : Choice E) (pc : Pc E) (w : Worker E)
      → known w.state w.stop_requested ≡ true
      → fits w.state w.stop_requested pc ≡ true
      → allowed w.state (thread_step c pc w).1.state ≡ true
  unfolding thread_step fits known
  advance-allowed completes pre_run w k f = ground arith
  advance-allowed refuses pre_run w k f = ground arith
  advance-allowed (raises e) pre_run w k f = ground arith
  advance-allowed completes body w k f = ground arith
  advance-allowed refuses body w k f = ground arith
  advance-allowed (raises e) body w k f = ground arith
  advance-allowed _ _ w k f = ground arith

  stays : (w : Worker E) → known w.state w.stop_requested ≡ true → allowed w.state w.state ≡ true
  unfolding known
  stays w k = ground arith

  stop-allowed :
      (w : Worker E)
      → known w.state w.stop_requested ≡ true
      → allowed w.state (request_stop w).0.state ≡ true
  unfolding request_stop known
  stop-allowed w k = ground arith

  start-allowed :
      (spawned : Bool) (s : System E)
      → known s.worker.state s.worker.stop_requested ≡ true
      → allowed s.worker.state (start spawned s).worker.state ≡ true
  unfolding start start_locked known
  start-allowed spawned s k = ground arith

  Step-allowed : {s t : System E} → Step s t → Inv s → allowed s.worker.state t.worker.state ≡ true
  Step-allowed {s} stops v = stop-allowed s.worker v.states
  Step-allowed {s} (starts spawned) v = start-allowed spawned s v.states
  Step-allowed {s} joins_finished v =
      unfold take_finished in ground (arith, stays s.worker v.states)
  Step-allowed {s} joins v = unfold take_thread in ground (arith, stays s.worker v.states)
  Step-allowed {s} (advances c others pc more e) v =
      advance-allowed c pc s.worker v.states
        (All-append-right (fits s.worker.state s.worker.stop_requested) others (pc ∷ more)
          (subst (All (fits s.worker.state s.worker.stop_requested)) e v.places)).0

  -- Whatever has happened, the next step of a caller or a thread keeps the state, or takes one of
  -- the changes that `allowed` lists: a stopped worker can only start, and `Unknown` never comes.
  pub Reach-Step-allowed :
      {s t : System E} → Reach initial s → Step s t → allowed s.worker.state t.worker.state ≡ true
  Reach-Step-allowed r st = Step-allowed st (Reach-Inv r)

  overwritten :
      (c : Choice E) (w : Worker E)
      → fits {E = E} w.state w.stop_requested enter ≡ true
      → let w' = (thread_step c enter (request_stop w).0).1 in
        ((request_stop w).0.state ≡ stopping)
        × (w'.state ≡ running)
        × (is_running w' ≡ true)
        × (w'.stop_requested ≡ true)
  unfolding fits request_stop thread_step is_running
  overwritten c w f = ground arith

  -- In every reachable state in which a thread stands between its test of the flag and its
  -- `setState(Running)`, a stop request is overwritten by the thread's next step: the request
  -- makes the state `Stopping`, the thread makes it `Running` again and enters `run`, `isRunning`
  -- answers true, and the flag stays set.
  pub stop_overwritten :
      {s : System E} (c : Choice E) (others more : List (Pc E))
      → Reach initial s
      → s.threads ≡ others ++ enter ∷ more
      → let w' = (thread_step c enter (request_stop s.worker).0).1 in
        ((request_stop s.worker).0.state ≡ stopping)
        × (w'.state ≡ running)
        × (is_running w' ≡ true)
        × (w'.stop_requested ≡ true)
  stop_overwritten {s} c others more r e =
      overwritten c s.worker
        (All-append-right (fits s.worker.state s.worker.stop_requested) others (enter ∷ more)
          (subst (All (fits s.worker.state s.worker.stop_requested)) e (Reach-Inv r).places)).0
