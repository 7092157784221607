-- ===== src/TcpServer/Races.antt =====
-- cTCPServer_V2.h: two orders of steps that the source does not handle.
use thread_component.Prelude.{
  ℕ, ◌+◌, ◌≡◌, refl, ap, ◌∙◌, true, false, none, some, List, [], ◌∷◌, ◌++◌, arith,
}
use thread_component.TcpServer.Run.{
  Server, RunPc, RunChoice, opening, skipped, starting, gives, succeeds, session, Start,
  emplace_fails, thread_fails, starts, run_move, start_client_session, take_client, emplace_back,
  close_back, pop_back, run_step, close_server_socket, close_clients, stop_triggered, refuse,
}
use thread_component.TcpServer.Session.{Session, new_session, close_socket, close_session}
use thread_component.TcpServer.System.{System}
use thread_component.TcpServer.Descriptors.{in_run, holds, stored, in_list-append}
use thread_component.TcpServer.Holding.{take-stored}
use thread_component.TcpServer.Phase.{close_slot}
use thread_component.TcpServer.Accounting.{IsAccounted, is_opening, run_move-leaves_opening}

-- The session that was emplaced is the one that is closed, and the one that is popped.
close_back-append :
    (xs : List Session) (x : Session)
    → close_back (xs ++ x ∷ []) ≡ (xs ++ (close_session x).0 ∷ [], (close_session x).1)
unfolding close_back
close_back-append [] x = refl
close_back-append (y ∷ []) x = refl
close_back-append (y ∷ z ∷ xs) x = ap (λ r. (y ∷ r.0, r.1)) (close_back-append (z ∷ xs) x)

pop_back-append : (xs : List Session) (x : Session) → pop_back (xs ++ x ∷ []) ≡ xs
unfolding pop_back
pop_back-append [] x = refl
pop_back-append (y ∷ []) x = refl
pop_back-append (y ∷ z ∷ xs) x = ap (λ ys. y ∷ ys) (pop_back-append (z ∷ xs) x)

thread_fails-closing :
    (x : ℕ) (s : Server)
    → take_client thread_fails x s ≡ record s { closing = (s.closing ++ x ∷ []) ++ x ∷ [] }
unfolding take_client start_client_session emplace_back close_session close_socket
thread_fails-closing x s =
    rw (close_back-append s.sessions (new_session x))
      (rw (pop_back-append s.sessions (close_session (new_session x)).0) refl)

-- How often the descriptor of an accepted client is then to be closed.
abbrev pub closings : Start → ℕ
closings thread_fails = 2
closings _ = 1

taken-stored :
    (o : Start) (fd : ℕ) (s : Server) → stored fd (take_client o fd s) ≡ closings o + stored fd s
taken-stored emplace_fails fd s = ground (arith, take-stored fd emplace_fails fd s refl)
taken-stored starts fd s = ground (arith, take-stored fd starts fd s refl)
taken-stored thread_fails fd s = ground (
  arith,
  ap (stored fd) (thread_fails-closing fd s),
  in_list-append fd (s.closing ++ fd ∷ []) (fd ∷ []),
  in_list-append fd s.closing (fd ∷ []),
)

taken-holds :
    (o : Start) (fd : ℕ) (s : Server)
    → holds fd (run_move (session o) (starting fd) s) ≡ closings o + stored fd s
unfolding run_move
taken-holds o fd s = omega (arith, taken-stored o fd s)

in_run-starting : (fd : ℕ) → in_run fd (starting fd) ≡ 1
in_run-starting fd = ground arith

-- Where every open descriptor is held in one place, that of an accepted client is open once. After
-- `startClientSession` it is to be closed from one place where that makes the client's thread or
-- cannot make the session; where it cannot make the thread, from two: it closes the descriptor itself,
-- and its answer tells `run` to close it.
pub thread_failure_closes_twice :
    (s : System) (fd : ℕ) (o : Start)
    → IsAccounted s
    → s.server.run ≡ starting fd
    → (s.opened fd ≡ 1) × (holds fd (run_step (session o) s.server) ≡ closings o)
unfolding run_step
thread_failure_closes_twice s fd o ((h, once), _) e =
    let at = ap (λ pc. holds fd (run_move (session o) pc s.server)) e in
    let one = in_run-starting fd in
    let held = ap (in_run fd) e in
    (
      omega (arith, h fd, once fd, held, one),
      omega (arith, h fd, once fd, held, one, at, taken-holds o fd s.server),
    )

-- Steps of the server's thread, with nothing between them.
unfoldable pub run_steps : List RunChoice → Server → Server
unfolding run_step
run_steps [] s = s
run_steps (c ∷ cs) s = run_steps cs (run_step c s)

-- A stop by another thread: the flag, and `stopTriggered`.
unfoldable pub stop : Server → Server
unfolding stop_triggered
stop s = stop_triggered (record s { stop_requested = true })

-- A server that was stopped before its `preRun` stored a socket, and whose thread has ended.
abbrev pub left_listening : ℕ → Server → Server
left_listening fd s = record (stop s) { server_socket = some fd; run = skipped }

skipped-same : (cs : List RunChoice) (s : Server) → s.run ≡ skipped → run_steps cs s ≡ s
unfolding run_steps run_step run_move
skipped-same [] s e = refl
skipped-same (c ∷ cs) s e = ap (λ pc. run_steps cs (run_move c pc s)) e ∙ skipped-same cs s e

-- Once `preRun` has begun, a slot that is empty stays so.
run_move-empty :
    (c : RunChoice) (pc : RunPc) (s : Server)
    → is_opening pc ≡ false
    → s.server_socket ≡ none
    → (run_move c pc s).server_socket ≡ none
unfolding run_move refuse close_server_socket close_clients take_client start_client_session
    emplace_back
run_move-empty c pc s b e = ground (arith, e, close_slot s.server_socket)

run_steps-empty :
    (cs : List RunChoice) (s : Server)
    → is_opening s.run ≡ false
    → s.server_socket ≡ none
    → (run_steps cs s).server_socket ≡ none
unfolding run_steps run_step
run_steps-empty [] s b e = e
run_steps-empty (c ∷ cs) s b e =
    let t = run_step c s in
    run_steps-empty cs t (run_move-leaves_opening c s.run s refl) (run_move-empty c s.run s b e)

-- A stop that comes before the `socket` of `preRun`, where the calls of `preRun` then succeed, leaves
-- the server listening: its thread ends without `run`, and neither that thread nor the stop closes
-- the socket, which stays in its slot. After a stop that comes behind the store of the socket the
-- slot is empty, and stays so.
pub stop_before_socket :
    (s : Server) (fd : ℕ) (cs : List RunChoice)
    → s.run ≡ opening
    → (run_steps (gives fd ∷ succeeds ∷ succeeds ∷ succeeds ∷ cs) (stop s) ≡ left_listening fd s)
      × ((run_steps cs (stop (run_step (gives fd) s))).server_socket ≡ none)
unfolding run_steps run_step run_move stop stop_triggered close_clients close_server_socket
stop_before_socket s fd cs e = (
  ap (λ pc. run_steps (succeeds ∷ succeeds ∷ succeeds ∷ cs) (run_move (gives fd) pc (stop s))) e
      ∙ skipped-same cs (left_listening fd s) refl,
  run_steps-empty cs (stop (run_step (gives fd) s))
      (run_move-leaves_opening (gives fd) s.run s refl)
      (close_slot (run_step (gives fd) s).server_socket),
)
