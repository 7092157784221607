-- ===== src/BaseWorker/Api.antt =====
-- cBaseWorker_V2.h: the methods `startThread`, `stopThread`, `stopThreadAndJoin` and the destructor,
-- as one caller runs them. What the worker's thread and other callers do while the caller waits is
-- an argument, a function of the worker; a wait ends when its condition holds or its time is over.
use thread_component.Prelude.{
  ℕ, ◌≤◌, ◌≡◌, refl, List, [], ◌∷◌, length, Bool-cases, inl, inr, ◌∙◌, Bool, true, false, none,
  ◌&&◌, ◌||◌, not, arith, if◌then◌else◌,
}
use thread_component.Prelude.Int.{ℤ, pos}
use thread_component.BaseWorker.{
  starting, running, stopped, is_stopped, is_running_state, Worker, set_state, request_stop,
  start_locked, take_finished, take_thread, Pc, pre_run, body, Choice, completes, refuses, raises,
  thread_step,
}
use thread_component.BaseWorker.Places.{live}
use thread_component.BaseWorker.Stopping.{thread_run, thread_run_ends}

-- A comparison with `duration_type::zero()`.
abbrev pub is_zero : ℤ → Bool
is_zero (pos ℕ.zero) = true
is_zero _ = false

module _ {E : Type 0} where
  -- The answer of `waitForStart` on the worker that it finds at the end of its wait.
  unfoldable pub wait_for_start : Worker E → Bool
  wait_for_start w = (is_running_state w.state || is_stopped w.state) && is_running_state w.state

  wait_for_stopped : Worker E → Bool
  wait_for_stopped w = is_stopped w.state

  unfoldable pub start_thread : Bool → ℤ → (Worker E → Worker E) → Worker E → Worker E × Bool
  unfolding wait_for_start set_state
  start_thread spawned timeout meanwhile w =
      let (w', started) = start_locked spawned (take_finished w).0 in
      if not started
      then (w', false)
      else if not spawned
      then (set_state stopped w', false)
      else if is_zero timeout
      then (w', true)
      else (meanwhile w', wait_for_start (meanwhile w'))

  unfoldable pub stop_thread : ℤ → (Worker E → Worker E) → Worker E → Worker E × Bool
  unfolding wait_for_stopped
  stop_thread timeout meanwhile w =
      let w' = (request_stop w).0 in
      if is_zero timeout
      then ((take_finished w').0, true)
      else if not (wait_for_stopped (meanwhile w'))
      then (meanwhile w', false)
      else ((take_finished (meanwhile w')).0, true)

  -- `joinThread` waits for the thread's end, if there is a thread to join.
  pub join_thread : (Worker E → Worker E) → Worker E → Worker E
  join_thread joined w = let (w', found) = take_thread w in if found then joined w' else w'

  pub stop_thread_and_join : ℤ → (Worker E → Worker E) → (Worker E → Worker E) → Worker E → Worker E
  unfolding join_thread
  stop_thread_and_join timeout meanwhile joined w =
      let (w', done) = stop_thread timeout meanwhile w in if done then w' else join_thread joined w'

  pub destroy : (Worker E → Worker E) → Worker E → Worker E
  unfolding join_thread
  destroy joined w = join_thread joined (request_stop w).0

  -- A start with no wait. On a stopped worker it succeeds exactly when the thread can be created,
  -- also where the handle of an earlier thread was still to be joined; flag and exception of the
  -- earlier run are cleared. On any other worker it fails and changes nothing.
  pub start_thread_now :
      (spawned : Bool) (meanwhile : Worker E → Worker E) (w : Worker E)
      → start_thread spawned (pos 0) meanwhile w ≡ (
          if is_stopped w.state
          then (
            record {
              state = if spawned then starting else stopped;
              stop_requested = false;
              joinable = spawned;
              last_unhandled_exception = none;
            },
            spawned,
          )
          else (w, false))
  unfolding start_thread start_locked take_finished
  start_thread_now spawned meanwhile w = ground arith

  -- A start with a wait answers true only if the worker is `Running` when the wait ends, and the
  -- worker is then as the thread left it.
  pub start_thread_waits :
      (spawned : Bool) (timeout : ℤ) (meanwhile : Worker E → Worker E) (w : Worker E)
      → is_zero timeout ≡ false
      → (start_thread spawned timeout meanwhile w).1 ≡ true
      → ((start_thread spawned timeout meanwhile w).0.state ≡ running)
        × (spawned ≡ true)
        × (w.state ≡ stopped)
  unfolding start_thread start_locked take_finished
  start_thread_waits spawned timeout meanwhile w z h = ground arith

  -- A stop with a wait answers true exactly when the worker is found stopped at its end, and then
  -- the handle of the thread has been joined; else the worker is left as it was found.
  pub stop_thread_waits :
      (timeout : ℤ) (meanwhile : Worker E → Worker E) (w : Worker E)
      → is_zero timeout ≡ false
      → let found = meanwhile (request_stop w).0 in
        let r = stop_thread timeout meanwhile w in
        (r.1 ≡ is_stopped found.state)
        × (r.0 ≡ (if is_stopped found.state then record found { joinable = false } else found))
  unfolding stop_thread take_finished
  stop_thread_waits timeout meanwhile w z = ground arith

  thread_step-joinable :
      (c : Choice E) (pc : Pc E) (w : Worker E) → (thread_step c pc w).1.joinable ≡ w.joinable
  unfolding thread_step
  thread_step-joinable completes pre_run w = refl
  thread_step-joinable refuses pre_run w = refl
  thread_step-joinable (raises e) pre_run w = refl
  thread_step-joinable completes body w = refl
  thread_step-joinable refuses body w = refl
  thread_step-joinable (raises e) body w = refl
  thread_step-joinable _ _ w = refl

  thread_run-joinable :
      (cs : List (Choice E)) (pc : Pc E) (w : Worker E)
      → (thread_run cs pc w).1.joinable ≡ w.joinable
  unfolding thread_run
  thread_run-joinable [] pc w = refl
  thread_run-joinable (c ∷ cs) pc w =
      thread_run-joinable cs (thread_step c pc w).0 (thread_step c pc w).1
      ∙ thread_step-joinable c pc w

  -- `stopThreadAndJoin` with a time to wait, where the worker still has the handle of its live
  -- thread when the wait is over: whether the thread had stopped by then or the join has to wait
  -- for it, and whichever way its `preRun` and `run` end, the worker is then stopped with no
  -- handle.
  pub stop_thread_and_join_stops :
      (timeout : ℤ) (meanwhile : Worker E → Worker E) (w : Worker E) (pc : Pc E)
      (cs : List (Choice E))
      → is_zero timeout ≡ false
      → live pc ≡ 1
      → 6 ≤ length cs
      → (meanwhile (request_stop w).0).joinable ≡ true
      → let w' = stop_thread_and_join timeout meanwhile (λ v. (thread_run cs pc v).1) w in
        (w'.state ≡ stopped) × (w'.joinable ≡ false)
  unfolding stop_thread_and_join take_thread
  stop_thread_and_join_stops timeout meanwhile w pc cs z l n h =
      let found = meanwhile (request_stop w).0 in
      let (answer, left) = stop_thread_waits timeout meanwhile w z in
      elim (Bool-cases (is_stopped found.state)) [
        | inl ended ↦ rw (answer, left, ended) (ground arith)
        | inr runs ↦
            rw (answer, left, runs, h)
              (
                (thread_run_ends cs pc (record found { joinable = false }) l n).1,
                thread_run-joinable cs pc (record found { joinable = false }),
              )
      ]

  -- The destructor of a worker that has the handle of its live thread waits for the thread,
  -- whichever way its `preRun` and `run` end, and the worker is then stopped with no handle.
  pub destroy_stops :
      (w : Worker E) (pc : Pc E) (cs : List (Choice E))
      → live pc ≡ 1
      → 6 ≤ length cs
      → w.joinable ≡ true
      → let w' = destroy (λ v. (thread_run cs pc v).1) w in
        (w'.state ≡ stopped) × (w'.joinable ≡ false)
  unfolding destroy take_thread
  destroy_stops w pc cs l n h =
      let v = (request_stop w).0 in
      let kept : v.joinable ≡ true = unfold request_stop in ground arith in
      rw kept (
        (thread_run_ends cs pc (record v { joinable = false }) l n).1,
        thread_run-joinable cs pc (record v { joinable = false }),
      )
