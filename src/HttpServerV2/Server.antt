-- ===== src/HttpServerV2/Server.antt =====
-- cHTTPServer_V2.cpp: the fields of the server, and its methods.
use thread_component.Prelude.{
  ℕ, zero, suc, Bool, true, false, Option, none, some, List, [], ◌∷◌, if◌then◌else◌, ◌==◌,
}
use thread_component.Prelude.Int.{ℤ}
use thread_component.HttpClient.Text.{Text}
use thread_component.HttpServer.Start.{
  StartState, Report, reset_start_state, resolve_start_if_pending, resolve_all,
  wait_until_listening,
}
use thread_component.HttpServer.Messages.{
  initialize_failed, stopped, exited_unexpectedly, unhandled_server, stop_requested_text,
  unhandled_io,
}

-- What `on_error` can hold: a function of the user, known by a number, or the one that `preRun` sets.
pub data Handler : Type 0 where
  user : ℕ → Handler
  wrapper : Handler

-- `protocol` is the word of the class in its messages; `on_error`, `server_io`, `pool` and `port` are
-- fields of `m_server`; a context is known by a number.
pub record Server : Type 0 where
  pub protocol : Text
  pub start : StartState
  pub on_error : Option Handler
  pub user_on_error : Option Handler
  pub server_io : Option ℕ
  pub io : Option ℕ
  pub pool : ℕ
  pub port : ℕ
  pub io_thread_count : ℕ

abbrev pub at_least_one : ℕ → ℕ
at_least_one count = if count == 0 then 1 else count

-- The constructor; `on_error` and `pool` are what a new server of the library has.
abbrev pub new : Text → Option Handler → ℕ → ℕ → ℕ → Server
new protocol on_error pool port count = record {
  protocol = protocol;
  start = record {
    start_resolved = false;
    start_succeeded = false;
    listening_port = 0;
    last_error = [];
  };
  on_error = on_error;
  user_on_error = none;
  server_io = none;
  io = none;
  pool = pool;
  port = port;
  io_thread_count = at_least_one count;
}

unfoldable pub set_io_thread_count : Bool → ℕ → Server → Server
set_io_thread_count running count s =
    if running then s else record s { io_thread_count = at_least_one count }

-- `resetStartState`, `resolveStartIfPending`, `setLastError` and `waitUntilListening`.
unfoldable pub reset_start : Server → Server
reset_start s = record s { start = reset_start_state s.start }

unfoldable pub report : Report → Server → Server
report r s = record s { start = resolve_start_if_pending r s.start }

unfoldable pub report_all : List Report → Server → Server
report_all rs s = record s { start = resolve_all rs s.start }

unfoldable pub set_last_error : Text → Server → Server
set_last_error message s = record s { start = record s.start { last_error = message } }

unfoldable pub wait_listening : ℤ → Server → Bool
wait_listening timeout s = wait_until_listening timeout s.start

abbrev pub failed : Text → Report
failed message = record { success = false; port = 0; error_message = message }

-- How `preRun` makes the context.
pub data Making : Type 0 where
  makes : ℕ → Making
  throws : Text → Making
  throws_other : Making

unfoldable pub pre_run : Making → Server → Server × Bool
unfolding report
pre_run (makes io) s = (
  record s {
    io = some io;
    user_on_error = s.on_error;
    server_io = some io;
    pool = 1;
    on_error = some wrapper;
  },
  true,
)
pre_run (throws what) s = (report (failed what) s, false)
pre_run throws_other s = (report (failed (initialize_failed s.protocol)) s, false)

-- A call of a function that `on_error` holds: the calls of the user's functions, in order, each with
-- its error, and the server. The depth of the calls is bounded by the fuel.
unfoldable pub call_handler : ℕ → Option Handler → Text → Server → Option (List (ℕ × Text) × Server)
unfolding set_last_error
call_handler fuel none error s = some ([], s)
call_handler fuel (some (user h)) error s = some ((h, error) ∷ [], s)
call_handler zero (some wrapper) error s = none
call_handler (suc fuel) (some wrapper) error s =
    call_handler fuel s.user_on_error error (set_last_error error s)

-- How a thread of `processWork` comes back from `io->run`.
pub data IoEnd : Type 0 where
  returns : IoEnd
  io_throws : Text → IoEnd
  io_throws_other : IoEnd

-- `runIo`, with whether it requests a stop.
unfoldable pub run_io : IoEnd → Server × Bool → Server × Bool
unfolding set_last_error
run_io returns (s, stop) = (s, stop)
run_io (io_throws what) (s, stop) = (set_last_error what s, true)
run_io io_throws_other (s, stop) = (set_last_error unhandled_io s, true)

-- `processWork`: one end for each thread, the caller's among them.
unfoldable pub run_threads : List IoEnd → Server × Bool → Server × Bool
unfolding run_io
run_threads [] r = r
run_threads (e ∷ ends) r = run_threads ends (run_io e r)

unfoldable pub process_work : List IoEnd → Server × Bool → Server × Bool
unfolding run_threads
process_work ends (s, stop) = elim s.io [ none ↦ (s, stop) | some _ ↦ run_threads ends (s, stop) ]

-- What happens in `run`: what other threads report before the server listens; the port,
-- where the server calls back that it does; what they report then; how the threads end; whether a stop
-- is requested at last; and how `run` goes on
-- after `processWork`, or out of `start` or of the making of a thread.
pub data Ending : Type 0 where
  finishes : Ending
  run_throws : Text → Ending
  run_throws_other : Ending

pub record Course : Type 0 where
  pub early : List Report
  pub listens : Option ℕ
  pub meanwhile : List Report
  pub ends : List IoEnd
  pub stopping : Bool
  pub ending : Ending

abbrev pub listened : Option ℕ → Server → Server
listened none s = s
listened (some port) s = report (record { success = true; port = port; error_message = [] }) s

-- The last lock of `run`.
unfoldable pub restore : Server → Server
restore s = record s {
  on_error = s.user_on_error;
  server_io = none;
  user_on_error = none;
  io = none;
}

unfoldable pub finish_run : Ending → Bool → Server → Server
unfolding restore report
finish_run finishes stop s =
    restore
      (report (failed (if stop then stopped s.protocol else exited_unexpectedly s.protocol)) s)
finish_run (run_throws what) stop s = report (failed what) s
finish_run run_throws_other stop s = report (failed (unhandled_server s.protocol)) s

unfoldable pub run : Course → Server → Server
unfolding finish_run report_all process_work
run c s =
    let (s', stop) =
      process_work c.ends
        (report_all c.meanwhile (listened c.listens (report_all c.early s)), c.stopping) in
    finish_run c.ending stop s'

-- `stopTriggered`: without a context it only stops the server of the library.
unfoldable pub stop_triggered : Server → Server
unfolding report
stop_triggered s = elim s.io [
  | none ↦ s
  | some _ ↦ report (failed (stop_requested_text s.protocol)) s
]
