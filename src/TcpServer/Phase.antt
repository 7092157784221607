-- ===== src/TcpServer/Phase.antt =====
-- cTCPServer_V2.h: what the server's thread has reached where it stands.
use thread_component.Prelude.{
  ℕ, ◌≡◌, refl, sym, ap, subst, Bool, true, false, Option, none, some, List, [], ◌∷◌, ◌++◌, arith,
  if◌then◌else◌, ◌&&◌,
}
use thread_component.TcpServer.Run.{
  Server, RunPc, opening, binding, listening, checking, testing, reaping, loading, joining,
  join_loop, closing_server, refused, skipped, exited, accepting, starting, RunChoice, gives,
  succeeds, fails, fails_eintr, session, take_all, some_taken, join_step, close_server_socket,
  refuse, failing, requesting, stopping_server, stopping_clients, run_move,
}
use thread_component.TcpServer.Session.{Session, close_socket, close_session}

abbrev pub all_taken : List Session → Bool
all_taken [] = true
all_taken (x ∷ xs) = x.taken && all_taken xs

-- What the thread has reached where it stands, of the sessions and of its own socket.
abbrev pub IsPhase : RunPc → List Session → Option ℕ → Type 0
IsPhase opening xs o = (xs ≡ []) × (o ≡ none)
IsPhase (binding _) xs o = xs ≡ []
IsPhase listening xs o = xs ≡ []
IsPhase checking xs o = xs ≡ []
IsPhase skipped xs o = xs ≡ []
IsPhase refused xs o = (xs ≡ []) × (o ≡ none)
IsPhase join_loop xs o = all_taken xs ≡ true
IsPhase closing_server xs o = xs ≡ []
IsPhase exited xs o = (xs ≡ []) × (o ≡ none)
IsPhase _ xs o = Unit

abbrev is_empty : List Session → Bool
is_empty [] = true
is_empty (x ∷ xs) = false

append-nonempty :
    (before : List Session) (x : Session) (after : List Session) → ¬ (before ++ x ∷ after ≡ [])
append-nonempty [] x after e = absurd (ground (arith, ap is_empty e))
append-nonempty (y ∷ ys) x after e = absurd (ground (arith, ap is_empty e))

pub all_taken-replace :
    (before : List Session) (x x' : Session) (after : List Session)
    → x'.taken ≡ x.taken
    → all_taken (before ++ x ∷ after) ≡ true
    → all_taken (before ++ x' ∷ after) ≡ true
all_taken-replace [] x x' after e h = ground (arith, e, h)
all_taken-replace (y ∷ ys) x x' after e h = ground (arith, h, all_taken-replace ys x x' after e)

all_taken-take_all : (xs : List Session) → all_taken (take_all xs) ≡ true
unfolding take_all
all_taken-take_all [] = refl
all_taken-take_all (x ∷ xs) = all_taken-take_all xs

all_taken-join_step : (xs : List Session) → all_taken xs ≡ true → all_taken (join_step xs).0 ≡ true
unfolding join_step close_session
all_taken-join_step [] h = refl
all_taken-join_step (x ∷ xs) h = ground (arith, h)

all_taken-none : (xs : List Session) → all_taken xs ≡ true → some_taken xs ≡ false → xs ≡ []
unfolding some_taken
all_taken-none [] h e = refl
all_taken-none (x ∷ xs) h e = absurd (ground (arith, h, e))

pub IsPhase-replace :
    (pc : RunPc) (before : List Session) (x x' : Session) (after : List Session) (o : Option ℕ)
    → x'.taken ≡ x.taken
    → IsPhase pc (before ++ x ∷ after) o
    → IsPhase pc (before ++ x' ∷ after) o
IsPhase-replace join_loop before x x' after o e h = all_taken-replace before x x' after e h
IsPhase-replace testing before x x' after o e h = tt
IsPhase-replace reaping before x x' after o e h = tt
IsPhase-replace loading before x x' after o e h = tt
IsPhase-replace joining before x x' after o e h = tt
IsPhase-replace (accepting _) before x x' after o e h = tt
IsPhase-replace (starting _) before x x' after o e h = tt
IsPhase-replace failing before x x' after o e h = tt
IsPhase-replace requesting before x x' after o e h = tt
IsPhase-replace stopping_server before x x' after o e h = tt
IsPhase-replace stopping_clients before x x' after o e h = tt
IsPhase-replace opening before x x' after o e (h, _) = absurd (append-nonempty before x after h)
IsPhase-replace refused before x x' after o e (h, _) = absurd (append-nonempty before x after h)
IsPhase-replace exited before x x' after o e (h, _) = absurd (append-nonempty before x after h)
IsPhase-replace _ before x x' after o e h = absurd (append-nonempty before x after h)

abbrev pub IsPhased : Server → Type 0
IsPhased s = IsPhase s.run s.sessions s.server_socket

pub close_slot : (o : Option ℕ) → (close_socket o).0 ≡ none
unfolding close_socket
close_slot none = refl
close_slot (some x) = refl

IsPhase-if :
    (b : Bool) (pc pc' : RunPc) (xs : List Session) (o : Option ℕ)
    → IsPhase pc xs o
    → IsPhase pc' xs o
    → IsPhase (if b then pc else pc') xs o
IsPhase-if true pc pc' xs o h k = h
IsPhase-if false pc pc' xs o h k = k

IsPhased-if :
    (b : Bool) (s t : Server)
    → (b ≡ true → IsPhased s)
    → (b ≡ false → IsPhased t)
    → IsPhased (if b then s else t)
IsPhased-if true s t h k = h refl
IsPhased-if false s t h k = k refl

pub IsPhase-close :
    (pc : RunPc) (xs : List Session) (o : Option ℕ)
    → IsPhase pc xs o
    → IsPhase pc xs (close_socket o).0
unfolding close_socket
IsPhase-close refused xs o (h, e) = (h, close_slot o)
IsPhase-close exited xs o (h, e) = (h, close_slot o)
IsPhase-close opening xs o (h, e) = (h, close_slot o)
IsPhase-close (binding _) xs o h = h
IsPhase-close listening xs o h = h
IsPhase-close checking xs o h = h
IsPhase-close skipped xs o h = h
IsPhase-close join_loop xs o h = h
IsPhase-close closing_server xs o h = h
IsPhase-close _ xs o h = tt

refuse-IsPhased : (s : Server) → s.sessions ≡ [] → IsPhased (refuse s)
unfolding refuse close_server_socket
refuse-IsPhased s h = (h, close_slot s.server_socket)

loading-IsPhased :
    (o : Option ℕ) (s : Server)
    → IsPhased
        (elim o [ none ↦ record s { run = joining } | some fd ↦ record s { run = accepting fd } ])
loading-IsPhased none s = tt
loading-IsPhased (some fd) s = tt

pub run_move-IsPhased :
    (c : RunChoice) (pc : RunPc) (s : Server)
    → s.run ≡ pc
    → IsPhase pc s.sessions s.server_socket
    → IsPhased (run_move c pc s)
unfolding run_move close_server_socket
run_move-IsPhased (gives y) opening s at (h, _) = h
run_move-IsPhased succeeds opening s at h = h
run_move-IsPhased fails opening s at h = h
run_move-IsPhased fails_eintr opening s at h = h
run_move-IsPhased (session z) opening s at h = h
run_move-IsPhased succeeds (binding x) s at h = h
run_move-IsPhased (gives y) (binding x) s at h = refuse-IsPhased s h
run_move-IsPhased fails (binding x) s at h = refuse-IsPhased s h
run_move-IsPhased fails_eintr (binding x) s at h = refuse-IsPhased s h
run_move-IsPhased (session z) (binding x) s at h = refuse-IsPhased s h
run_move-IsPhased succeeds listening s at h = h
run_move-IsPhased (gives y) listening s at h = refuse-IsPhased s h
run_move-IsPhased fails listening s at h = refuse-IsPhased s h
run_move-IsPhased fails_eintr listening s at h = refuse-IsPhased s h
run_move-IsPhased (session z) listening s at h = refuse-IsPhased s h
run_move-IsPhased c checking s at h =
    IsPhase-if s.stop_requested skipped testing s.sessions s.server_socket h tt
run_move-IsPhased c testing s at h = IsPhased-if s.stop_requested _ _ (λ _. tt) (λ _. tt)
run_move-IsPhased c reaping s at h =
    IsPhased-if (some_taken s.sessions) _ _
      (λ _. subst (λ pc. IsPhase pc (join_step s.sessions).0 s.server_socket) (sym at) tt) (λ _. tt)
run_move-IsPhased c loading s at h = loading-IsPhased s.server_socket s
run_move-IsPhased (gives y) (accepting x) s at h = tt
run_move-IsPhased succeeds (accepting x) s at h = tt
run_move-IsPhased fails (accepting x) s at h = tt
run_move-IsPhased (session z) (accepting x) s at h = tt
run_move-IsPhased fails_eintr (accepting x) s at h =
    IsPhase-if s.stop_requested failing testing s.sessions s.server_socket tt tt
run_move-IsPhased c failing s at h =
    IsPhase-if s.stop_requested joining requesting s.sessions s.server_socket tt tt
run_move-IsPhased c requesting s at h = tt
run_move-IsPhased c stopping_server s at h = tt
run_move-IsPhased c stopping_clients s at h = tt
run_move-IsPhased (session z) (starting x) s at h = tt
run_move-IsPhased (gives y) (starting x) s at h =
    subst (λ pc. IsPhase pc s.sessions s.server_socket) (sym at) tt
run_move-IsPhased succeeds (starting x) s at h =
    subst (λ pc. IsPhase pc s.sessions s.server_socket) (sym at) tt
run_move-IsPhased fails (starting x) s at h =
    subst (λ pc. IsPhase pc s.sessions s.server_socket) (sym at) tt
run_move-IsPhased fails_eintr (starting x) s at h =
    subst (λ pc. IsPhase pc s.sessions s.server_socket) (sym at) tt
run_move-IsPhased c joining s at h = all_taken-take_all s.sessions
run_move-IsPhased c join_loop s at h =
    IsPhased-if (some_taken s.sessions) _ _
      (λ _.
        subst (λ pc. IsPhase pc (join_step s.sessions).0 s.server_socket) (sym at)
          (all_taken-join_step s.sessions h))
      (all_taken-none s.sessions h)
run_move-IsPhased c closing_server s at h = (h, close_slot s.server_socket)
run_move-IsPhased c refused s at h = subst (λ pc. IsPhase pc s.sessions s.server_socket) (sym at) h
run_move-IsPhased c skipped s at h = subst (λ pc. IsPhase pc s.sessions s.server_socket) (sym at) h
run_move-IsPhased c exited s at h = subst (λ pc. IsPhase pc s.sessions s.server_socket) (sym at) h
