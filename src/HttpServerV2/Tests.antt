-- ===== src/HttpServerV2/Tests.antt =====
-- Starts of a server, and the theorems at concrete inputs.
use thread_component.Prelude.{◌≡◌, ◌≢◌, refl, ap, Bool, true, false, none, some, [], ◌∷◌, arith}
use thread_component.HttpServer.Messages.{http, stop_requested_text}
use thread_component.HttpServerV2.Server.{
  Server, user, new, makes, pre_run, run, call_handler, set_last_error, Course, finishes,
  run_throws, Ending, returns, io_throws, failed,
}
use thread_component.HttpServerV2.Secure.{SecureServer, new_secure}
use thread_component.HttpServerV2.Restoring.{cycles, cycles-call_handler, thrown_run-call_handler}

abbrev server : Server
server = new http (some (user 5)) 1 8080 2

abbrev secure : SecureServer
secure = new_secure (some (user 5)) 1 8443 (99 ∷ []) (107 ∷ []) [] 2

abbrev stopped_run : Course
stopped_run = record {
  early = [];
  listens = some 8080;
  meanwhile = failed (stop_requested_text http) ∷ [];
  ends = returns ∷ io_throws (98 ∷ []) ∷ [];
  stopping = true;
  ending = finishes;
}

abbrev thrown_run : Course
thrown_run = record stopped_run { listens = none; ending = run_throws (112 ∷ []) }

is_finishing : Ending → Bool
is_finishing finishes = true
is_finishing _ = false

thrown_run-Throws : thrown_run.ending ≢ finishes
unfolding is_finishing
thrown_run-Throws e = ground (arith, ap is_finishing e)

cycles-call_handler_example :
    let t = (pre_run (makes 9) (cycles ((7, stopped_run) ∷ (8, stopped_run) ∷ []) server)).0 in
    call_handler 1 t.on_error (101 ∷ []) t ≡ some ((5, 101 ∷ []) ∷ [], set_last_error (101 ∷ []) t)
cycles-call_handler_example =
    cycles-call_handler ((7, stopped_run) ∷ (8, stopped_run) ∷ []) 9 5 (101 ∷ []) server
      (refl, (refl, tt)) refl

thrown_run-call_handler_example :
    let t = (pre_run (makes 8) (run thrown_run (pre_run (makes 7) server).0)).0 in
    call_handler 100 t.on_error (101 ∷ []) t ≡ none
thrown_run-call_handler_example =
    thrown_run-call_handler 7 8 thrown_run 100 (101 ∷ []) server thrown_run-Throws
