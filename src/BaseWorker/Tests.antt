-- ===== src/BaseWorker/Tests.antt =====
-- The theorems on the worker at small concrete inputs.
use thread_component.Prelude.{ℕ, ◌≡◌, refl, true, false, none, some, [], ◌∷◌, arith}
use thread_component.Prelude.Int.{pos}
use thread_component.BaseWorker.{
  starting, running, stopping, stopped, Worker, pre_run, check, enter, body, exited, completes,
  raises, get_state, has_stopped, retire, request_stop, is_running, start_locked, thread_step,
}
use thread_component.BaseWorker.System.{System, initial, start, starts, advances, Reach, here, next}
use thread_component.BaseWorker.Invariant.{Inv, Reach-Inv}
use thread_component.BaseWorker.Transitions.{allowed, Reach-Step-allowed, stop_overwritten}
use thread_component.BaseWorker.Stopping.{life, thread_run, thread_run_ends}
use thread_component.BaseWorker.Api.{stop_thread_and_join, stop_thread_and_join_stops}

abbrev idle : Worker ℕ
idle = record {
  state = stopped;
  stop_requested = true;
  joinable = true;
  last_unhandled_exception = some 7;
}

abbrev begun : Worker ℕ
begun = record {
  state = starting;
  stop_requested = false;
  joinable = true;
  last_unhandled_exception = none;
}

abbrev entering : System ℕ
entering = record { worker = begun; threads = enter ∷ [] }

-- A start, and the thread's steps up to its `setState(Running)`.
reached : Reach initial entering
unfolding start start_locked thread_step
reached =
    next (next (next here (starts true)) (advances completes [] pre_run [] refl))
      (advances completes [] check [] refl)

abbrev run_to_end : Worker ℕ → Worker ℕ
run_to_end w = (thread_run (life completes (raises 3)) pre_run w).1

Reach-Inv_example : Inv entering
Reach-Inv_example = Reach-Inv reached

Reach-Step-allowed_example : allowed starting running ≡ true
unfolding thread_step
Reach-Step-allowed_example = Reach-Step-allowed reached (advances completes [] enter [] refl)

stop_overwritten_example :
    let w = (thread_step completes enter (request_stop begun).0).1 in
    ((request_stop begun).0.state ≡ stopping)
    × (w.state ≡ running)
    × (is_running w ≡ true)
    × (w.stop_requested ≡ true)
stop_overwritten_example = stop_overwritten completes [] [] reached refl

stop_thread_and_join_stops_example :
    let w =
      stop_thread_and_join
        (pos 5)
        (λ v. v)
        (λ v. (thread_run (life completes completes) body v).1)
        begun in
    (w.state ≡ stopped) × (w.joinable ≡ false)
unfolding request_stop
stop_thread_and_join_stops_example =
    stop_thread_and_join_stops (pos 5) (λ v. v) begun body (life completes completes) refl refl
      (omega arith) refl

thread_run_ends_example :
    let r = thread_run (life (raises 7) completes) pre_run begun in
    (r.0 ≡ exited) × (r.1.state ≡ stopped)
thread_run_ends_example =
    thread_run_ends (life (raises 7) completes) pre_run begun refl (omega arith)

observers : (get_state begun ≡ starting) × (has_stopped idle ≡ true) × (retire idle ≡ (idle, false))
unfolding has_stopped retire get_state request_stop
observers = (refl, refl, refl)
