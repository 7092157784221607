-- ===== src/HttpServer/Decided.antt =====
-- cHTTPServer.cpp on cBaseWorker_V2.h: every start is decided.
use thread_component.Prelude.{
  subst, suc, ◌-◌, ◌≡◌, refl, sym, inl, inr, true, false, Option, none, some, List, [], ◌∷◌, ◌==◌,
  arith, Bool-cases,
}
use thread_component.BaseWorker.{
  starting, stopped, Worker, Pc, pre_run, check, enter, body, finish, exited, caught, start_locked,
  take_finished,
}
use thread_component.HttpServer.Messages.{stop_requested_text}
use thread_component.HttpServer.Serving.{failed, Library, Ending, report}
use thread_component.HttpServer.Hosted.{
  Preparation, Hosted, RunPc, loads, serves, resets, Move, requests_stop, hook_reads, hook_stops,
  hook_reports, advances, ask_stop, read_server, move, moves, start_hosted, pending,
}
use thread_component.HttpServer.Points.{
  IsLive, resolved, IsSettled, IsHeeded, IsServing, Holds, report-resolved, now,
  request_stop-IsLive, advance-Holds,
}

module _ {H E : Type 0} where
  -- A step that leaves the thread where it is.
  Holds-same :
      (pc : Pc Ending) (s t : Hosted H E)
      → (IsHeeded s → IsHeeded t)
      → (IsSettled s → IsSettled t)
      → s.run_pc ≡ t.run_pc
      → Holds pc s
      → Holds pc t
  Holds-same pre_run s t f g r h = f h
  Holds-same check s t f g r h = f h
  Holds-same enter s t f g r h = tt
  Holds-same body s t f g r h = by_run s.run_pc r h
    where
      by_run : (q : RunPc) → q ≡ t.run_pc → IsServing q s → IsServing t.run_pc t
      by_run loads e h = subst (λ q. IsServing q t) e tt
      by_run serves e h = subst (λ q. IsServing q t) e tt
      by_run resets e h = subst (λ q. IsServing q t) e (g h)
  Holds-same (caught e) s t f g r h = g h
  Holds-same finish s t f g r h = g h
  Holds-same exited s t f g r h = g h

  ask_stop-Holds : (pc : Pc Ending) (s : Hosted H E) → Holds pc s → Holds pc (ask_stop s)
  unfolding ask_stop
  ask_stop-Holds pc s =
      Holds-same pc s (ask_stop s)
        (λ (live, h).
          let (live', e) = request_stop-IsLive s.worker live in (live', λ _ _. ground (arith, e)))
        (λ h e. ground (arith, h e)) refl

  -- A move of `stopTriggered` after which the start is settled.
  Holds-hook :
      (pc : Pc Ending) (s t : Hosted H E)
      → t.worker ≡ s.worker
      → s.run_pc ≡ t.run_pc
      → IsSettled t
      → Holds pc s
      → Holds pc t
  Holds-hook pc s t e r k =
      Holds-same pc s t (λ (live, _). (subst (λ w. IsLive w.state) (sym e) live, λ _. k)) (λ _. k) r

  read_server-Holds :
      (o : Option (Library H E)) (s : Hosted H E)
      → Holds s.pc s
      → Holds (read_server o s).pc (read_server o s)
  unfolding read_server
  read_server-Holds none s = Holds-hook s.pc s (read_server none s) refl refl (λ _. omega arith)
  read_server-Holds (some library) s =
      Holds-hook s.pc s (read_server (some library) s) refl refl (λ _. omega arith)

  move-Holds :
      (make : Preparation H E) (m : Move) (s : Hosted H E)
      → Holds s.pc s
      → Holds (move make false m s).pc (move make false m s)
  unfolding move
  move-Holds make requests_stop s h = unfold ask_stop in ask_stop-Holds s.pc s h
  move-Holds make hook_reads s h = elim (Bool-cases (s.to_read == 0)) [
    | inl e ↦ rw e h
    | inr e ↦ rw e (read_server-Holds s.impl.server s h)
  ]
  move-Holds make hook_stops s h = elim (Bool-cases (s.to_stop == 0)) [
    | inl e ↦ rw e h
    | inr e ↦ rw e (
        Holds-hook s.pc s (record s { to_stop = s.to_stop - 1; to_report = suc s.to_report }) refl
          refl (λ _. omega arith) h)
  ]
  move-Holds make hook_reports s h = elim (Bool-cases (s.to_report == 0)) [
    | inl e ↦ rw e h
    | inr e ↦ rw e (
        Holds-hook s.pc s
          (record s {
            impl = report (failed (stop_requested_text s.impl.protocol)) s.impl;
            to_report = s.to_report - 1;
          })
          refl refl (now (report-resolved (failed (stop_requested_text s.impl.protocol)) s.impl)) h)
  ]
  move-Holds make (advances event) s h = advance-Holds make s.pc event s refl h

  moves-Holds :
      (make : Preparation H E) (ms : List Move) (s : Hosted H E)
      → Holds s.pc s
      → Holds (moves make false ms s).pc (moves make false ms s)
  unfolding moves
  moves-Holds make [] s h = h
  moves-Holds make (m ∷ ms) s h = moves-Holds make ms (move make false m s) (move-Holds make m s h)

take_finished-free :
    {E : Type 0} (w : Worker E)
    → w.state ≡ stopped
    → ((take_finished w).0.state ≡ stopped) × ((take_finished w).0.joinable ≡ false)
unfolding take_finished
take_finished-free w h = elim (Bool-cases w.joinable) [
  | inl e ↦ rw (h, e) (refl, refl)
  | inr e ↦ rw (h, e) (refl, refl)
]

abbrev fresh : {E : Type 0} → Worker E
fresh = record {
  state = starting;
  stop_requested = false;
  joinable = true;
  last_unhandled_exception = none;
}

start_locked-free :
    {E : Type 0} (w : Worker E)
    → w.state ≡ stopped
    → w.joinable ≡ false
    → start_locked true w ≡ (fresh, true)
unfolding start_locked
start_locked-free w h k = rw (h, k) refl

start_hosted-Holds :
    {H E : Type 0} (s : Hosted H E)
    → s.worker.state ≡ stopped
    → Holds (start_hosted s).0.pc (start_hosted s).0
unfolding start_hosted
start_hosted-Holds s h =
    let (a, b) = take_finished-free s.worker h in
    rw (start_locked-free (take_finished s.worker).0 a b) (tt, λ e. absurd (ground (arith, e)))

-- One start of a server, whose `preRun` leaves the start undecided when it answers true and tells of a
-- failure when it answers false, as those of HTTP and HTTPS do; from its `startThread` on a worker
-- that had ended, with any moves of its thread and of callers that stop it, in any order, where
-- `stop` of the library does not throw: when the thread has ended and no call of `stopTriggered` is
-- under way, the start is decided.
pub start_hosted-decided :
    {H E : Type 0} (make : Preparation H E) (ms : List Move) (s : Hosted H E)
    → s.worker.state ≡ stopped
    → (moves make false ms (start_hosted s).0).pc ≡ exited
    → pending (moves make false ms (start_hosted s).0) ≡ 0
    → (moves make false ms (start_hosted s).0).impl.start.start_resolved ≡ true
start_hosted-decided make ms s h x n =
    let t = moves make false ms (start_hosted s).0 in
    let settled : IsSettled t =
      subst (λ pc. Holds pc t) x
        (moves-Holds make ms (start_hosted s).0 (start_hosted-Holds s h)) in
    elim (Bool-cases (resolved t)) [ inl e ↦ e | inr e ↦ absurd (omega (arith, settled e, n)) ]
