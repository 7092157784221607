-- ===== src/TcpServer/Session.antt =====
-- cTCPServer_V2.h: a client's session and its thread, `handleClient`.
use thread_component.Prelude.{
  ℕ, Bool, true, false, Option, none, some, List, [], ◌∷◌, if◌then◌else◌,
}

-- What `recv` does: some bytes, an interruption, or the end of the stream or another error.
pub data Read : Type 0 where
  got interrupted finished : Read

-- What the environment decides in a step of the thread: how `recv` returns, and whether the buffer
-- or the callback throws.
pub record HandlerChoice : Type 0 where
  pub read : Read
  pub throws : Bool

-- Where `handleClient` stands: before the buffer, before the test of the flag, before the load of
-- the socket, in `recv`, before `closeSocket`, before `completed` is set, at its end.
pub data HandlerPc : Type 0 where
  begin testing loading leaving completing ended : HandlerPc
  reading : ℕ → HandlerPc

-- `ClientSession`; `taken` tells whether it has left `m_clients` for the list of a joining thread.
pub record Session : Type 0 where
  pub socket : Option ℕ
  pub completed : Bool
  pub worker : HandlerPc
  pub taken : Bool

abbrev pub new_session : ℕ → Session
new_session client_socket = record {
  socket = some client_socket;
  completed = false;
  worker = begin;
  taken = false;
}

-- `closeSocket`: the exchange of the slot, and what is then to be closed.
unfoldable pub close_socket : Option ℕ → Option ℕ × List ℕ
close_socket none = (none, [])
close_socket (some fd) = (none, fd ∷ [])

unfoldable pub close_session : Session → Session × List ℕ
unfolding close_socket
close_session x = let (slot, fds) = close_socket x.socket in (record x { socket = slot }, fds)

-- One step of `handleClient`; `stop` is the flag of the worker.
unfoldable pub handler_move : HandlerChoice → Bool → HandlerPc → Session → Session × List ℕ
unfolding close_session
handler_move c stop begin x = (record x { worker = if c.throws then leaving else testing }, [])
handler_move c stop testing x = (record x { worker = if stop then leaving else loading }, [])
handler_move c stop loading x =
    (record x { worker = elim x.socket [ none ↦ leaving | some fd ↦ reading fd ] }, [])
handler_move c stop (reading fd) x = (
  record x {
    worker = elim c.read [
      | got ↦ if c.throws then leaving else testing
      | interrupted ↦ testing
      | finished ↦ leaving
    ];
  },
  [],
)
handler_move c stop leaving x =
    let (x', fds) = close_session x in (record x' { worker = completing }, fds)
handler_move c stop completing x = (record x { completed = true; worker = ended }, [])
handler_move c stop ended x = (x, [])

unfoldable pub handler_step : HandlerChoice → Bool → Session → Session × List ℕ
unfolding handler_move
handler_step c stop x = handler_move c stop x.worker x
