-- ===== src/Grpc/Tests.antt =====
-- A run of the loop, and the theorems at concrete inputs.
use thread_component.Prelude.{
  ℕ, ◌≡◌, ◌≤◌, refl, true, false, Option, some, none, List, [], ◌∷◌, map, arith,
}
use thread_component.Grpc.Call.{
  process, finish, Worker, Event, got, shutdown, throws_other, run_start, new_call, submit, deliver,
  find_call, set_status, remove, proceed, final_status, delete, delete_call, Status, internal,
  unhandled,
}
use thread_component.Grpc.System.{
  initial, in_tags, IsEvent, Reach, here, next, runs, stops, shuts_server, shuts_queue,
}
use thread_component.Grpc.Tags.{in_calls}
use thread_component.Grpc.Ownership.{reach-owns, deliver-is_live, shutdown_leaves_none}
use thread_component.Grpc.Listener.{listeners, listener_armed}
use thread_component.Grpc.Draining.{shut_queue_drains}
use thread_component.Grpc.Answers.{answer, served, reach-answers}
use thread_component.Grpc.Start.{Startup}
use thread_component.Grpc.Metric.{MetricResponse, accepted, on_execute_rpc}

-- The worker when the first request has come, and `OnExecuteRpc` has thrown on it.
abbrev thrown : Status
thrown = record { code = internal; message = unhandled }

abbrev one_answered : Worker ℕ
one_answered = record {
  calls = record { tag = 1; status = process } ∷ record { tag = 0; status = finish } ∷ [];
  pending = 1 ∷ 0 ∷ [];
  fresh = 2;
  finished = (7, thrown) ∷ [];
  stop_requested = false;
  server_down = false;
  queue_down = false;
  beats = 1;
  looping = true;
}

one_answered-reached : Reach one_answered
unfolding run_start new_call submit deliver find_call set_status remove proceed final_status
one_answered-reached =
    next here (runs (got 0 true 7 throws_other) one_answered refl (omega arith, refl) refl)

-- The same worker with its answer sent, stopped, and with the server and the queue shut down.
abbrev drained : Worker ℕ
drained = record one_answered {
  calls = [];
  pending = [];
  stop_requested = true;
  server_down = true;
  queue_down = true;
  beats = 3;
}

-- The listener that is left when the queue is shut down, and that is then deleted.
abbrev last_listener : Worker ℕ
last_listener = record one_answered {
  calls = record { tag = 1; status = process } ∷ [];
  pending = 1 ∷ [];
  stop_requested = true;
  server_down = true;
  queue_down = true;
  beats = 2;
}

abbrev gone : Event ℕ
gone = got 1 false 0 throws_other

last_listener-reached : Reach last_listener
unfolding deliver find_call remove proceed delete delete_call
last_listener-reached =
    let sent = next one_answered-reached (
      runs (got 0 true 0 throws_other)
        (record one_answered {
          calls = record { tag = 1; status = process } ∷ [];
          pending = 1 ∷ [];
          beats = 2;
        })
        refl (omega arith) refl) in
    let stopped = next sent stops in
    let server_shut = next stopped (shuts_server refl) in next server_shut (shuts_queue refl refl)

last-IsEvent : IsEvent gone last_listener
unfolding find_call
last-IsEvent = (omega arith, refl)

last_delivered : deliver gone last_listener ≡ some drained
unfolding deliver find_call remove delete delete_call
last_delivered = refl

drained-reached : Reach drained
drained-reached = next last_listener-reached (runs gone drained refl last-IsEvent last_delivered)

reach-owns_example :
    (in_calls 1 one_answered.calls ≡ in_tags 1 one_answered.pending)
    × (in_tags 1 one_answered.pending ≤ 1)
reach-owns_example = reach-owns one_answered 1 one_answered-reached

deliver-is_live_example : ¬ (deliver gone last_listener ≡ none)
deliver-is_live_example = deliver-is_live last_listener gone last_listener-reached last-IsEvent

shutdown_leaves_none_example :
    (deliver shutdown drained ≡ some (record drained { beats = 4; looping = false }))
    × (drained.calls ≡ [])
shutdown_leaves_none_example = shutdown_leaves_none drained drained-reached (refl, refl)

listener_armed_example : listeners one_answered.calls ≡ 1
listener_armed_example = listener_armed one_answered one_answered-reached refl

shut_queue_drains_example : in_tags 1 drained.pending ≤ in_tags 1 last_listener.pending
shut_queue_drains_example =
    shut_queue_drains last_listener drained gone last_listener-reached refl last-IsEvent
      last_delivered 1

reach-answers_example : one_answered.finished ≡ map answer (served one_answered-reached)
reach-answers_example = reach-answers one_answered one_answered-reached

abbrev stopped_server : Startup
stopped_server = record { bound_port = 50051; last_error = []; has_queue = true; has_server = true }

-- A request that the worker of cGrpcServerWorker.h serves first.
abbrev blank : MetricResponse
blank = record { success = false; message = [] }

abbrev first_answers : Option (List (MetricResponse × Status))
first_answers =
    let (reply, o) = on_execute_rpc blank in
    elim (deliver (got 0 true reply o) (run_start initial)) [
      | none ↦ none
      | some w ↦ some w.finished
    ]

first_answers-accepted : first_answers ≡ some (accepted ∷ [])
unfolding run_start new_call submit deliver find_call set_status remove proceed final_status
    on_execute_rpc
first_answers-accepted = refl
