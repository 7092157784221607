-- ===== src/TcpServer/Ending.antt =====
-- cTCPServer_V2.h: how the server's thread ends.
use thread_component.Prelude.{ℕ, ◌≡◌, refl, ap, ◌∙◌, subst, Bool, none, [], arith, ◌⊎◌, inl, inr}
use thread_component.TcpServer.Run.{Server, RunPc, refused, exited, close_server_socket, run_step}
use thread_component.TcpServer.Session.{
  Session, HandlerChoice, HandlerPc, close_session, handler_step, handler_move,
}
use thread_component.TcpServer.System.{
  System, initial, Step, stops, closes_server, closes_session, handles, runs, closes, Reach, here,
  next,
}
use thread_component.TcpServer.Descriptors.{in_slot, in_list, in_sessions, in_run, holds}
use thread_component.TcpServer.Accounting.{Reach-IsAccounted, initial-IsAccounted}
use thread_component.TcpServer.Phase.{
  IsPhase, IsPhased, IsPhase-replace, IsPhase-close, run_move-IsPhased,
}

close_session-taken : (x : Session) → (close_session x).0.taken ≡ x.taken
unfolding close_session
close_session-taken x = refl

handler_step-taken :
    (c : HandlerChoice) (stop : Bool) (pc : HandlerPc) (x : Session)
    → (handler_move c stop pc x).0.taken ≡ x.taken
unfolding handler_move close_session
handler_step-taken c stop pc x = ground arith

Step-IsPhased : {s t : System} → Step s t → IsPhased s.server → IsPhased t.server
unfolding close_server_socket run_step handler_step
Step-IsPhased stops h = h
Step-IsPhased {s} closes_server h =
    IsPhase-close s.server.run s.server.sessions s.server.server_socket h
Step-IsPhased {s} (closes_session before x after e _) h =
    IsPhase-replace s.server.run before x (close_session x).0 after s.server.server_socket
      (close_session-taken x) (subst (λ xs. IsPhase s.server.run xs s.server.server_socket) e h)
Step-IsPhased {s} (handles c before x after e) h =
    IsPhase-replace s.server.run before x (handler_step c s.server.stop_requested x).0 after
      s.server.server_socket (handler_step-taken c s.server.stop_requested x.worker x)
      (subst (λ xs. IsPhase s.server.run xs s.server.server_socket) e h)
Step-IsPhased {s} (runs c f) h = run_move-IsPhased c s.server.run s.server refl h
Step-IsPhased (closes before x after e) h = h

Reach-IsPhased : {s t : System} → Reach s t → IsPhased s.server → IsPhased t.server
Reach-IsPhased here h = h
Reach-IsPhased (next r st calm) h = Step-IsPhased st (Reach-IsPhased r h)

held_none :
    (fd : ℕ) (s : Server) (pc : RunPc)
    → s.run ≡ pc
    → in_run fd pc ≡ 0
    → (s.sessions ≡ []) × (s.server_socket ≡ none)
    → s.closing ≡ []
    → holds fd s ≡ 0
held_none fd s pc e n (h, k) quiet =
    omega
      (arith, n, ap (in_run fd) e, ap (in_sessions fd) h, ap (in_slot fd) k, ap (in_list fd) quiet)

at_end :
    (s : Server)
    → (s.run ≡ exited) ⊎ (s.run ≡ refused)
    → IsPhased s
    → (s.sessions ≡ []) × (s.server_socket ≡ none)
at_end s (inl e) h = subst (λ pc. IsPhase pc s.sessions s.server_socket) e h
at_end s (inr e) h = subst (λ pc. IsPhase pc s.sessions s.server_socket) e h

no_hands : (fd : ℕ) (s : Server) → (s.run ≡ exited) ⊎ (s.run ≡ refused) → in_run fd s.run ≡ 0
no_hands fd s (inl e) = ap (in_run fd) e
no_hands fd s (inr e) = ap (in_run fd) e

-- Where the server's thread has ended by itself, after `run` or in a `preRun` that failed, and every
-- descriptor taken out of its slot has been closed, no descriptor is open and no session is left;
-- where every thread of a client can be made.
pub ended_closed :
    (s : System) (fd : ℕ)
    → Reach initial s
    → (s.server.run ≡ exited) ⊎ (s.server.run ≡ refused)
    → s.server.closing ≡ []
    → (s.server.sessions ≡ []) × (s.opened fd ≡ 0)
ended_closed s fd r over quiet =
    let none_left = at_end s.server over (Reach-IsPhased r (refl, refl)) in
    let empty =
      held_none fd s.server s.server.run refl (no_hands fd s.server over) none_left quiet in
    (none_left.0, (Reach-IsAccounted r initial-IsAccounted).0.0 fd ∙ empty)
