-- ===== src/TcpServer/Run.antt =====
-- cTCPServer_V2.h: the lists of sessions, and the thread of `preRun` and `run`.
use thread_component.Prelude.{
  ℕ, Bool, true, false, Option, none, some, List, [], ◌∷◌, ◌++◌, ◌||◌, not, if◌then◌else◌,
}
use thread_component.TcpServer.Session.{
  Session, HandlerPc, ended, new_session, close_socket, close_session,
}

-- Where the thread stands. `preRun`: before `socket`, before `bind`, before `listen`, before the
-- worker's test of the flag. `run`: at the test of its loop, in the joins of `reapCompletedClients`,
-- before the load of the server's socket, in `accept`, with an accepted socket, before
-- `joinAndClearAllClients`, in its joins, before `closeServerSocket`. Where `accept` failed for good:
-- before the test of the flag, before `requestStop` sets it, and in the two parts of its
-- `stopTriggered`. The ends: `refused` after a
-- failed `preRun`, `skipped` where `run` was not called, and `exited` after `run`.
pub data RunPc : Type 0 where
  opening listening checking testing reaping loading joining join_loop closing_server : RunPc
  failing requesting stopping_server stopping_clients refused skipped exited : RunPc
  binding : ℕ → RunPc
  accepting : ℕ → RunPc
  starting : ℕ → RunPc

-- How `startClientSession` goes: the session cannot be made, its thread cannot, or both can.
pub data Start : Type 0 where
  emplace_fails thread_fails starts : Start

-- What the environment decides: the result of a call (`fails`, or `fails_eintr` for `EINTR`).
pub data RunChoice : Type 0 where
  gives : ℕ → RunChoice
  succeeds fails fails_eintr : RunChoice
  session : Start → RunChoice

pub record Server : Type 0 where
  pub server_socket : Option ℕ
  pub stop_requested : Bool
  pub sessions : List Session
  pub run : RunPc
  pub closing : List ℕ

-- The splice of `reapCompletedClients`.
unfoldable pub take_completed : List Session → List Session
take_completed [] = []
take_completed (x ∷ xs) = record x { taken = x.taken || x.completed } ∷ take_completed xs

-- The splice of `joinAndClearAllClients`.
unfoldable pub take_all : List Session → List Session
take_all [] = []
take_all (x ∷ xs) = record x { taken = true } ∷ take_all xs

unfoldable pub some_taken : List Session → Bool
some_taken [] = false
some_taken (x ∷ xs) = let rest = some_taken xs in if x.taken then true else rest

abbrev pub is_ended : HandlerPc → Bool
is_ended ended = true
is_ended _ = false

-- A step of the loop over the spliced list, at its first session: `closeSocket`, then the join,
-- which waits for the session's thread. After the join the session is left alone; it is destroyed
-- here, where the source waits for the end of the loop.
unfoldable pub join_step : List Session → List Session × List ℕ
unfolding close_session
join_step [] = ([], [])
join_step (x ∷ xs) =
    let (xs', fds) = join_step xs in
    let (x', closed) = close_session x in
    if not x.taken then (x ∷ xs', fds) else elim x.socket [
      | some fd ↦ (x' ∷ xs, closed)
      | none ↦ if is_ended x.worker then (xs, []) else (x ∷ xs, [])
    ]

unfoldable pub close_all_client_sockets : List Session → List Session × List ℕ
unfolding close_session
close_all_client_sockets [] = ([], [])
close_all_client_sockets (x ∷ xs) =
    let (xs', fds) = close_all_client_sockets xs in
    let (x', closed) = close_session x in
    if x.taken then (x ∷ xs', fds) else (x' ∷ xs', closed ++ fds)

unfoldable pub close_server_socket : Server → Server
unfolding close_socket
close_server_socket s =
    let (slot, fds) = close_socket s.server_socket in
    record s { server_socket = slot; closing = s.closing ++ fds }

unfoldable pub close_clients : Server → Server
unfolding close_all_client_sockets
close_clients s =
    let (xs, fds) = close_all_client_sockets s.sessions in
    record s { sessions = xs; closing = s.closing ++ fds }

-- `stopTriggered` as a whole, where nothing comes between its two parts.
unfoldable pub stop_triggered : Server → Server
unfolding close_server_socket close_clients
stop_triggered s = close_clients (close_server_socket s)

unfoldable pub emplace_back : ℕ → Server → Server
emplace_back fd s = record s { sessions = s.sessions ++ new_session fd ∷ [] }

-- `closeSocket` on the session at the back, and `pop_back`.
unfoldable pub close_back : List Session → List Session × List ℕ
unfolding close_session
close_back [] = ([], [])
close_back (x ∷ []) = let (x', fds) = close_session x in (x' ∷ [], fds)
close_back (x ∷ y ∷ xs) = let (ys, fds) = close_back (y ∷ xs) in (x ∷ ys, fds)

unfoldable pub pop_back : List Session → List Session
pop_back [] = []
pop_back (x ∷ []) = []
pop_back (x ∷ y ∷ xs) = x ∷ pop_back (y ∷ xs)

-- `startClientSession`, with its answer.
unfoldable pub start_client_session : Start → ℕ → Server → Bool × Server
unfolding emplace_back close_back pop_back
start_client_session emplace_fails fd s = (false, s)
start_client_session thread_fails fd s =
    let s' = emplace_back fd s in
    let (xs, fds) = close_back s'.sessions in
    (false, record s' { sessions = pop_back xs; closing = s'.closing ++ fds })
start_client_session starts fd s = (true, emplace_back fd s)

-- `run` with an accepted socket: `closeSocketValue` where `startClientSession` answers false.
unfoldable pub take_client : Start → ℕ → Server → Server
unfolding start_client_session
take_client o fd s =
    let (started, s') = start_client_session o fd s in
    if not started then record s' { closing = s'.closing ++ fd ∷ [] } else s'

-- One step of the thread. `refuse` is the end of a `preRun` that fails.
unfoldable pub refuse : Server → Server
unfolding close_server_socket
refuse s = record (close_server_socket s) { run = refused }

unfoldable pub run_move : RunChoice → RunPc → Server → Server
unfolding close_server_socket close_clients take_client refuse take_completed take_all
run_move (gives fd) opening s = record s { server_socket = some fd; run = binding fd }
run_move _ opening s = record s { run = refused }
run_move succeeds (binding fd) s = record s { run = listening }
run_move _ (binding fd) s = refuse s
run_move succeeds listening s = record s { run = checking }
run_move _ listening s = refuse s
run_move c checking s = record s { run = if s.stop_requested then skipped else testing }
run_move c testing s =
    if s.stop_requested
    then record s { run = joining }
    else record s { sessions = take_completed s.sessions; run = reaping }
run_move c reaping s =
    let (xs, fds) = join_step s.sessions in
    if some_taken s.sessions
    then record s { sessions = xs; closing = s.closing ++ fds }
    else record s { run = loading }
run_move c loading s = elim s.server_socket [
  | none ↦ record s { run = joining }
  | some fd ↦ record s { run = accepting fd }
]
run_move (gives fd) (accepting socket) s = record s { run = starting fd }
run_move fails_eintr (accepting socket) s = record s {
  run = if s.stop_requested then failing else testing;
}
run_move _ (accepting socket) s = record s { run = failing }
run_move (session o) (starting fd) s = record (take_client o fd s) { run = testing }
run_move _ (starting fd) s = s
run_move c failing s = record s { run = if s.stop_requested then joining else requesting }
run_move c requesting s = record s { stop_requested = true; run = stopping_server }
run_move c stopping_server s = record (close_server_socket s) { run = stopping_clients }
run_move c stopping_clients s = record (close_clients s) { run = joining }
run_move c joining s = record s { sessions = take_all s.sessions; run = join_loop }
run_move c join_loop s =
    let (xs, fds) = join_step s.sessions in
    if some_taken s.sessions
    then record s { sessions = xs; closing = s.closing ++ fds }
    else record s { run = closing_server }
run_move c closing_server s = record (close_server_socket s) { run = exited }
run_move c refused s = s
run_move c skipped s = s
run_move c exited s = s

unfoldable pub run_step : RunChoice → Server → Server
unfolding run_move
run_step c s = run_move c s.run s
