-- ===== src/TcpServer/Holding.antt =====
-- cTCPServer_V2.h: the steps of the server leave a descriptor with as many holders as it had, but for
-- the one that a step is given.
use thread_component.Prelude.{ℕ, ◌+◌, ◌≡◌, refl, ap, true, none, List, [], ◌∷◌, ◌++◌, arith}
use thread_component.TcpServer.Run.{
  Server, RunPc, opening, binding, listening, checking, testing, reaping, loading, joining,
  join_loop, closing_server, refused, skipped, exited, accepting, starting, RunChoice, gives,
  succeeds, fails, fails_eintr, session, Start, emplace_fails, thread_fails, starts, join_step,
  close_all_client_sockets, close_server_socket, close_clients, emplace_back, start_client_session,
  take_client, refuse, failing, requesting, stopping_server, stopping_clients, run_move, run_step,
}
use thread_component.TcpServer.Session.{Session, new_session, close_socket}
use thread_component.TcpServer.System.{given, no_thread_failure}
use thread_component.TcpServer.Descriptors.{
  is, in_slot, in_list, in_sessions, in_run, stored, holds, in_list-append, in_sessions-append,
  slot-close, take_completed-holds, take_all-holds, join_step-holds, close_all-holds,
}

module _ (fd : ℕ) where
  pub close_server-stored : (s : Server) → stored fd (close_server_socket s) ≡ stored fd s
  unfolding close_server_socket
  close_server-stored s = omega (
    arith,
    slot-close fd s.server_socket,
    in_list-append fd s.closing (close_socket s.server_socket).1,
  )

  close_clients-stored : (s : Server) → stored fd (close_clients s) ≡ stored fd s
  unfolding close_clients
  close_clients-stored s = omega (
    arith,
    close_all-holds fd s.sessions,
    in_list-append fd s.closing (close_all_client_sockets s.sessions).1,
  )

  -- A client whose session is made, or whose session cannot be made.
  pub take-stored :
      (o : Start) (x : ℕ) (s : Server)
      → no_thread_failure (session o) ≡ true
      → stored fd (take_client o x s) ≡ is fd x + stored fd s
  unfolding take_client start_client_session emplace_back
  take-stored emplace_fails x s calm = omega (arith, in_list-append fd s.closing (x ∷ []))
  take-stored thread_fails x s calm = ground arith
  take-stored starts x s calm = omega (arith, in_sessions-append fd s.sessions (new_session x ∷ []))

  join_step-stored :
      (s : Server)
      → let r = join_step s.sessions in
        stored fd (record s { sessions = r.0; closing = s.closing ++ r.1 }) ≡ stored fd s
  join_step-stored s =
      omega
        (arith, join_step-holds fd s.sessions, in_list-append fd s.closing (join_step s.sessions).1)

  run_move-holds :
      (c : RunChoice) (pc : RunPc) (s : Server)
      → s.run ≡ pc
      → no_thread_failure c ≡ true
      → (pc ≡ opening → s.server_socket ≡ none)
      → holds fd (run_move c pc s) ≡ in_run fd pc + stored fd s + in_slot fd (given c pc)
  unfolding run_move refuse
  run_move-holds (gives x) opening s at calm o = omega (arith, ap (in_slot fd) (o refl))
  run_move-holds succeeds opening s at calm o = omega arith
  run_move-holds fails opening s at calm o = omega arith
  run_move-holds fails_eintr opening s at calm o = omega arith
  run_move-holds (session z) opening s at calm o = omega arith
  run_move-holds succeeds (binding x) s at calm o = omega arith
  run_move-holds (gives y) (binding x) s at calm o = omega (arith, close_server-stored s)
  run_move-holds fails (binding x) s at calm o = omega (arith, close_server-stored s)
  run_move-holds fails_eintr (binding x) s at calm o = omega (arith, close_server-stored s)
  run_move-holds (session z) (binding x) s at calm o = omega (arith, close_server-stored s)
  run_move-holds succeeds listening s at calm o = omega arith
  run_move-holds (gives x) listening s at calm o = omega (arith, close_server-stored s)
  run_move-holds fails listening s at calm o = omega (arith, close_server-stored s)
  run_move-holds fails_eintr listening s at calm o = omega (arith, close_server-stored s)
  run_move-holds (session z) listening s at calm o = omega (arith, close_server-stored s)
  run_move-holds c checking s at calm o = ground arith
  run_move-holds c testing s at calm o = ground (arith, take_completed-holds fd s.sessions)
  run_move-holds c reaping s at calm o = ground (arith, join_step-stored s, ap (in_run fd) at)
  run_move-holds c loading s at calm o = ground arith
  run_move-holds (gives y) (accepting x) s at calm o = omega arith
  run_move-holds succeeds (accepting x) s at calm o = omega arith
  run_move-holds fails (accepting x) s at calm o = omega arith
  run_move-holds fails_eintr (accepting x) s at calm o = ground arith
  run_move-holds (session z) (accepting x) s at calm o = omega arith
  run_move-holds c failing s at calm o = ground arith
  run_move-holds c requesting s at calm o = ground arith
  run_move-holds c stopping_server s at calm o = ground (arith, close_server-stored s)
  run_move-holds c stopping_clients s at calm o = ground (arith, close_clients-stored s)
  run_move-holds (session z) (starting x) s at calm o = omega (arith, take-stored z x s calm)
  run_move-holds (gives y) (starting x) s at calm o = omega (arith, ap (in_run fd) at)
  run_move-holds succeeds (starting x) s at calm o = omega (arith, ap (in_run fd) at)
  run_move-holds fails (starting x) s at calm o = omega (arith, ap (in_run fd) at)
  run_move-holds fails_eintr (starting x) s at calm o = omega (arith, ap (in_run fd) at)
  run_move-holds c joining s at calm o = ground (arith, take_all-holds fd s.sessions)
  run_move-holds c join_loop s at calm o = ground (arith, join_step-stored s, ap (in_run fd) at)
  run_move-holds c closing_server s at calm o = ground (arith, close_server-stored s)
  run_move-holds c refused s at calm o = ground (arith, ap (in_run fd) at)
  run_move-holds c skipped s at calm o = ground (arith, ap (in_run fd) at)
  run_move-holds c exited s at calm o = ground (arith, ap (in_run fd) at)

  pub run_step-holds :
      (c : RunChoice) (s : Server)
      → no_thread_failure c ≡ true
      → (s.run ≡ opening → s.server_socket ≡ none)
      → holds fd (run_step c s) ≡ holds fd s + in_slot fd (given c s.run)
  unfolding run_step
  run_step-holds c s calm o = run_move-holds c s.run s refl calm o

module _ (fd : ℕ) (s : Server) where
  pub replace-stored :
      (before : List Session) (x x' : Session) (after : List Session) (fds : List ℕ)
      → s.sessions ≡ before ++ x ∷ after
      → in_slot fd x.socket ≡ in_slot fd x'.socket + in_list fd fds
      → stored fd (record s { sessions = before ++ x' ∷ after; closing = s.closing ++ fds })
        ≡ stored fd s
  replace-stored before x x' after fds e h = omega (
    arith,
    h,
    ap (in_sessions fd) e,
    in_sessions-append fd before (x ∷ after),
    in_sessions-append fd before (x' ∷ after),
    in_list-append fd s.closing fds,
  )

  pub remove-stored :
      (before : List ℕ) (x : ℕ) (after : List ℕ)
      → s.closing ≡ before ++ x ∷ after
      → stored fd (record s { closing = before ++ after }) + is fd x ≡ stored fd s
  remove-stored before x after e = omega (
    arith,
    ap (in_list fd) e,
    in_list-append fd before (x ∷ after),
    in_list-append fd before after,
  )
