-- ===== src/TcpServer/Tests.antt =====
-- Runs of a small server, and the theorems at concrete inputs.
use thread_component.Prelude.{
  ◌≡◌, refl, true, false, some, none, [], ◌∷◌, List, ◌≤◌, inr, arith, Bool,
}
use thread_component.TcpServer.Session.{
  Session, HandlerChoice, got, finished, reading, close_session, close_socket,
}
use thread_component.TcpServer.Run.{
  starting, gives, succeeds, fails, session, thread_fails, run_step, run_move, refused,
  close_server_socket, take_completed, some_taken, join_step, refuse,
}
use thread_component.TcpServer.System.{
  System, initial, Reach, here, next, runs, closes, open_one, close_one,
}
use thread_component.TcpServer.Descriptors.{holds}
use thread_component.TcpServer.Accounting.{reach-accounts, Reach-IsAccounted, initial-IsAccounted}
use thread_component.TcpServer.Ending.{ended_closed}
use thread_component.TcpServer.Join.{handler_run, join_passes}
use thread_component.TcpServer.Races.{
  thread_failure_closes_twice, stop_before_socket, run_steps, stop, left_listening,
}

-- A server whose `bind` failed, and whose socket was then closed.
abbrev unbound : System
unbound = record {
  server = record {
    server_socket = none;
    stop_requested = false;
    sessions = [];
    run = refused;
    closing = [];
  };
  opened = close_one 3 (open_one (some 3) (λ _. 0));
}

unbound-reached : Reach initial unbound
unfolding run_step run_move close_server_socket refuse close_socket
unbound-reached =
    let made = next here (runs (gives 3) refl) refl in
    let refused_bind = next made (runs fails tt) refl in next refused_bind (closes [] 3 [] refl) tt

-- A server that has accepted a client, with descriptor 4, on its socket 3.
abbrev accepted : System
accepted = record {
  server = record {
    server_socket = some 3;
    stop_requested = false;
    sessions = [];
    run = starting 4;
    closing = [];
  };
  opened = open_one (some 4) (open_one (some 3) (λ _. 0));
}

accepted-reached : Reach initial accepted
unfolding run_step run_move close_server_socket close_socket take_completed some_taken join_step
accepted-reached =
    let made = next here (runs (gives 3) refl) refl in
    let bound = next made (runs succeeds tt) refl in
    let listens = next bound (runs succeeds tt) refl in
    let checked = next listens (runs succeeds tt) refl in
    let tested = next checked (runs succeeds tt) refl in
    let reaped = next tested (runs succeeds tt) refl in
    let loaded = next reaped (runs succeeds tt) refl in next loaded (runs (gives 4) refl) refl

abbrev served : Session
served = record { socket = some 4; completed = false; worker = reading 4; taken = true }

abbrev choice : HandlerChoice
choice = record { read = got; throws = false }

abbrev broken : HandlerChoice
broken = record { read = finished; throws = false }

abbrev moves : List (HandlerChoice × Bool)
moves = (broken, false) ∷ (choice, false) ∷ (choice, false) ∷ (choice, true) ∷ (choice, true) ∷ []

reach-accounts_example : (accepted.opened 4 ≡ holds 4 accepted.server) × (accepted.opened 4 ≤ 1)
reach-accounts_example = reach-accounts accepted 4 accepted-reached

ended_closed_example : (unbound.server.sessions ≡ []) × (unbound.opened 3 ≡ 0)
ended_closed_example = ended_closed unbound 3 unbound-reached (inr refl) refl

join_passes_example :
    join_step (handler_run moves (close_session served).0 ∷ served ∷ []) ≡ (served ∷ [], [])
join_passes_example = join_passes moves served (served ∷ []) refl (omega arith)

thread_failure_closes_twice_example :
    (accepted.opened 4 ≡ 1) × (holds 4 (run_step (session thread_fails) accepted.server) ≡ 2)
thread_failure_closes_twice_example =
    thread_failure_closes_twice accepted 4 thread_fails
      (Reach-IsAccounted accepted-reached initial-IsAccounted) refl

stop_before_socket_example :
    let s = initial.server in
    (run_steps (gives 3 ∷ succeeds ∷ succeeds ∷ succeeds ∷ fails ∷ []) (stop s)
      ≡ left_listening 3 s)
    × ((run_steps (fails ∷ []) (stop (run_step (gives 3) s))).server_socket ≡ none)
stop_before_socket_example = stop_before_socket initial.server 3 (fails ∷ []) refl
