-- ===== src/TcpServer/Descriptors.antt =====
-- cTCPServer_V2.h: who holds a descriptor.
use thread_component.Prelude.{
  ℕ, ◌+◌, ◌≡◌, refl, Bool, Option, none, some, List, [], ◌∷◌, ◌++◌, arith, if◌then◌else◌, ◌==◌,
}
use thread_component.TcpServer.Run.{
  Server, RunPc, starting, take_completed, take_all, join_step, close_all_client_sockets,
}
use thread_component.TcpServer.Session.{
  Session, HandlerChoice, HandlerPc, begin, reading, leaving, completing, ended, close_socket,
  close_session, handler_step, handler_move,
}

abbrev pub is : ℕ → ℕ → ℕ
is fd x = if fd == x then 1 else 0

abbrev pub in_slot : ℕ → Option ℕ → ℕ
in_slot fd none = 0
in_slot fd (some x) = is fd x

abbrev pub in_list : ℕ → List ℕ → ℕ
in_list fd [] = 0
in_list fd (x ∷ xs) = is fd x + in_list fd xs

abbrev pub in_sessions : ℕ → List Session → ℕ
in_sessions fd [] = 0
in_sessions fd (x ∷ xs) = in_slot fd x.socket + in_sessions fd xs

abbrev pub in_run : ℕ → RunPc → ℕ
in_run fd (starting x) = is fd x
in_run fd _ = 0

abbrev pub stored : ℕ → Server → ℕ
stored fd s = in_slot fd s.server_socket + in_sessions fd s.sessions + in_list fd s.closing

-- In how many places a descriptor stands that is to be closed from there.
abbrev pub holds : ℕ → Server → ℕ
holds fd s = in_run fd s.run + stored fd s

pub in_list-append :
    (fd : ℕ) (xs ys : List ℕ) → in_list fd (xs ++ ys) ≡ in_list fd xs + in_list fd ys
in_list-append fd [] ys = omega arith
in_list-append fd (x ∷ xs) ys = omega (arith, in_list-append fd xs ys)

pub in_sessions-append :
    (fd : ℕ) (xs ys : List Session)
    → in_sessions fd (xs ++ ys) ≡ in_sessions fd xs + in_sessions fd ys
in_sessions-append fd [] ys = omega arith
in_sessions-append fd (x ∷ xs) ys = omega (arith, in_sessions-append fd xs ys)

module _ (fd : ℕ) where
  pub slot-close :
      (o : Option ℕ) → in_slot fd o ≡ in_slot fd (close_socket o).0 + in_list fd (close_socket o).1
  unfolding close_socket
  slot-close none = refl
  slot-close (some x) = omega arith

  pub session-close :
      (x : Session)
      → in_slot fd x.socket ≡ in_slot fd (close_session x).0.socket + in_list fd (close_session x).1
  unfolding close_session
  session-close x = slot-close x.socket

  handler_move-holds :
      (c : HandlerChoice) (stop : Bool) (pc : HandlerPc) (x : Session)
      → let r = handler_move c stop pc x in
        in_slot fd x.socket ≡ in_slot fd r.0.socket + in_list fd r.1
  unfolding handler_move
  handler_move-holds c stop begin x = omega arith
  handler_move-holds c stop HandlerPc.testing x = omega arith
  handler_move-holds c stop HandlerPc.loading x = omega arith
  handler_move-holds c stop (reading y) x = omega arith
  handler_move-holds c stop leaving x = session-close x
  handler_move-holds c stop completing x = omega arith
  handler_move-holds c stop ended x = omega arith

  pub handler_step-holds :
      (c : HandlerChoice) (stop : Bool) (x : Session)
      → let r = handler_step c stop x in
        in_slot fd x.socket ≡ in_slot fd r.0.socket + in_list fd r.1
  unfolding handler_step
  handler_step-holds c stop x = handler_move-holds c stop x.worker x

  pub take_completed-holds :
      (xs : List Session) → in_sessions fd (take_completed xs) ≡ in_sessions fd xs
  unfolding take_completed
  take_completed-holds [] = refl
  take_completed-holds (x ∷ xs) = omega (arith, take_completed-holds xs)

  pub take_all-holds : (xs : List Session) → in_sessions fd (take_all xs) ≡ in_sessions fd xs
  unfolding take_all
  take_all-holds [] = refl
  take_all-holds (x ∷ xs) = omega (arith, take_all-holds xs)

  pub join_step-holds :
      (xs : List Session)
      → in_sessions fd xs ≡ in_sessions fd (join_step xs).0 + in_list fd (join_step xs).1
  unfolding join_step
  join_step-holds [] = refl
  join_step-holds (x ∷ xs) = ground (arith, join_step-holds xs, session-close x)

  pub close_all-holds :
      (xs : List Session)
      → let r = close_all_client_sockets xs in
        in_sessions fd xs ≡ in_sessions fd r.0 + in_list fd r.1
  unfolding close_all_client_sockets
  close_all-holds [] = refl
  close_all-holds (x ∷ xs) = ground (
    arith,
    close_all-holds xs,
    session-close x,
    in_list-append fd (close_session x).1 (close_all_client_sockets xs).1,
  )
