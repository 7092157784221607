-- ===== src/TcpServer/Accounting.antt =====
-- cTCPServer_V2.h: every open descriptor is held in one place, whatever the order of the steps.
use thread_component.Prelude.{
  ℕ, ◌+◌, ◌≤◌, ◌≡◌, refl, ap, Bool, true, false, Option, none, some, arith,
}
use thread_component.TcpServer.Run.{
  Server, RunPc, opening, RunChoice, close_server_socket, refuse, run_move, run_step,
}
use thread_component.TcpServer.Session.{close_socket, close_session, handler_step}
use thread_component.TcpServer.System.{
  System, initial, given, open_one, IsFresh, Step, stops, closes_server, closes_session, handles,
  runs, closes, IsCalm, Reach, here, next,
}
use thread_component.TcpServer.Descriptors.{in_slot, holds, session-close, handler_step-holds}
use thread_component.TcpServer.Holding.{
  close_server-stored, run_step-holds, replace-stored, remove-stored,
}

abbrev pub is_opening : RunPc → Bool
is_opening opening = true
is_opening _ = false

pub run_move-leaves_opening :
    (c : RunChoice) (pc : RunPc) (s : Server)
    → is_opening s.run ≡ is_opening pc
    → is_opening (run_move c pc s).run ≡ false
unfolding run_move refuse
run_move-leaves_opening c pc s e = ground arith

open_one-in_slot :
    (o : Option ℕ) (opened : ℕ → ℕ) (x : ℕ) → open_one o opened x ≡ opened x + in_slot x o
open_one-in_slot none opened x = omega arith
open_one-in_slot (some y) opened x = ground arith

open_one-fresh :
    (o : Option ℕ) (opened : ℕ → ℕ)
    → IsFresh o opened
    → ((x : ℕ) → opened x ≤ 1)
    → (x : ℕ) → open_one o opened x ≤ 1
open_one-fresh none opened f once x = once x
open_one-fresh (some y) opened f once x = ground (arith, once x, λ (e : x ≡ y). ap opened e)

-- What holds in every state that is reached: an open descriptor is open once and stands in one
-- place, a place holds an open descriptor only, and no socket of the server is left over where the
-- next is made.
abbrev pub IsAccounted : System → Type 0
IsAccounted s =
    (((fd : ℕ) → s.opened fd ≡ holds fd s.server) × ((fd : ℕ) → s.opened fd ≤ 1))
    × (s.server.run ≡ opening → s.server.server_socket ≡ none)

pub Step-IsAccounted : {s t : System} → (st : Step s t) → IsCalm st → IsAccounted s → IsAccounted t
unfolding close_server_socket run_step
Step-IsAccounted stops calm i = i
Step-IsAccounted {s} closes_server calm ((h, once), o) = (
  (λ x. omega (arith, h x, close_server-stored x s.server), once),
  λ e. ap (λ z. (close_socket z).0) (o e),
)
Step-IsAccounted {s} (closes_session before x after e _) calm ((h, once), o) = (
  (
    λ y.
        let r = close_session x in
        omega (arith, h y, replace-stored y s.server before x r.0 after r.1 e (session-close y x)),
    once,
  ),
  o,
)
Step-IsAccounted {s} (handles c before x after e) calm ((h, once), o) = (
  (
    λ y.
        let r = handler_step c s.server.stop_requested x in
        omega (
          arith,
          h y,
          replace-stored y s.server before x r.0 after r.1 e
              (handler_step-holds y c s.server.stop_requested x),
        ),
    once,
  ),
  o,
)
Step-IsAccounted {s} (runs c f) calm ((h, once), o) = (
  (
    λ x. omega (
      arith,
      h x,
      open_one-in_slot (given c s.server.run) s.opened x,
      run_step-holds x c s.server calm o,
    ),
    open_one-fresh (given c s.server.run) s.opened f once,
  ),
  λ e.
      absurd
        (ground (arith, ap is_opening e, run_move-leaves_opening c s.server.run s.server refl)),
)
Step-IsAccounted {s} (closes before x after e) calm ((h, once), o) = (
  (
    λ y. ground (arith, h y, remove-stored y s.server before x after e),
    λ y. ground (arith, once y),
  ),
  o,
)

pub Reach-IsAccounted : {s t : System} → Reach s t → IsAccounted s → IsAccounted t
Reach-IsAccounted here i = i
Reach-IsAccounted (next r st calm) i = Step-IsAccounted st calm (Reach-IsAccounted r i)

pub initial-IsAccounted : IsAccounted initial
initial-IsAccounted = ((λ x. refl, λ x. omega arith), λ e. refl)

-- From the start of the server on, in any order of the steps of its thread, of the threads of its
-- clients and of the threads that stop it, and where every thread of a client can be made: a
-- descriptor is open exactly as often as it stands in the server's slot, in a session, in the hands
-- of `run` or among those that a thread is closing, and that is at most once. So none is left open
-- without a holder, and none is closed twice.
pub reach-accounts :
    (s : System) (fd : ℕ) → Reach initial s → (s.opened fd ≡ holds fd s.server) × (s.opened fd ≤ 1)
reach-accounts s fd r = let i = Reach-IsAccounted r initial-IsAccounted in (i.0.0 fd, i.0.1 fd)
