-- ===== src/TcpServer/System.antt =====
-- cTCPServer_V2.h: the steps of the server's threads and callers in any order, with the descriptors
-- that the operating system holds open for it.
use thread_component.Prelude.{
  ℕ, suc, ◌-◌, ◌≡◌, Bool, true, false, Option, none, some, List, [], ◌∷◌, ◌++◌, if◌then◌else◌, ◌==◌,
}
use thread_component.TcpServer.Run.{
  Server, RunPc, opening, accepting, RunChoice, gives, session, thread_fails, run_step,
  close_server_socket,
}
use thread_component.TcpServer.Session.{Session, HandlerChoice, handler_step, close_session}

-- `opened` tells how many times a descriptor is open.
pub record System : Type 0 where
  pub server : Server
  pub opened : ℕ → ℕ

abbrev pub initial : System
initial = record {
  server = record {
    server_socket = none;
    stop_requested = false;
    sessions = [];
    run = opening;
    closing = [];
  };
  opened = λ _. 0;
}

-- The descriptor that a step of `run` is given.
abbrev pub given : RunChoice → RunPc → Option ℕ
given (gives fd) opening = some fd
given (gives fd) (accepting socket) = some fd
given _ _ = none

abbrev pub open_one : Option ℕ → (ℕ → ℕ) → ℕ → ℕ
open_one none opened x = opened x
open_one (some fd) opened x = if x == fd then suc (opened x) else opened x

abbrev pub close_one : ℕ → (ℕ → ℕ) → ℕ → ℕ
close_one fd opened x = if x == fd then opened x - 1 else opened x

-- The operating system gives a descriptor that is not open.
abbrev pub IsFresh : Option ℕ → (ℕ → ℕ) → Type 0
IsFresh none opened = Unit
IsFresh (some fd) opened = opened fd ≡ 0

-- `stopTriggered`, which other threads run, closes the server's socket and those of listed sessions
-- one by one.
pub data Step (s : System) : System → Type 0 where
  stops : Step s (record s { server = record s.server { stop_requested = true } })
  closes_server : Step s (record s { server = close_server_socket s.server })
  closes_session :
      (before : List Session) (x : Session) (after : List Session)
      → s.server.sessions ≡ before ++ x ∷ after
      → x.taken ≡ false
      → Step s (record s {
        server = record s.server {
          sessions = before ++ (close_session x).0 ∷ after;
          closing = s.server.closing ++ (close_session x).1;
        };
      })
  handles :
      (c : HandlerChoice) (before : List Session) (x : Session) (after : List Session)
      → s.server.sessions ≡ before ++ x ∷ after
      → Step s (record s {
        server = record s.server {
          sessions = before ++ (handler_step c s.server.stop_requested x).0 ∷ after;
          closing = s.server.closing ++ (handler_step c s.server.stop_requested x).1;
        };
      })
  runs :
      (c : RunChoice)
      → IsFresh (given c s.server.run) s.opened
      → Step s (record {
        server = run_step c s.server;
        opened = open_one (given c s.server.run) s.opened;
      })
  closes :
      (before : List ℕ) (fd : ℕ) (after : List ℕ)
      → s.server.closing ≡ before ++ fd ∷ after
      → Step s (record {
        server = record s.server { closing = before ++ after };
        opened = close_one fd s.opened;
      })

-- No thread of a client fails to be made.
abbrev pub no_thread_failure : RunChoice → Bool
no_thread_failure (session thread_fails) = false
no_thread_failure _ = true

abbrev pub IsCalm : {s t : System} → Step s t → Type 0
IsCalm (runs c f) = no_thread_failure c ≡ true
IsCalm _ = Unit

pub data Reach (s : System) : System → Type 0 where
  here : Reach s s
  next : {t u : System} → Reach s t → (st : Step t u) → IsCalm st → Reach s u
