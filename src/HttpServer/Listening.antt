-- ===== src/HttpServer/Listening.antt =====
-- cHTTPServer.cpp on cBaseWorker_V2.h: a start that is told to have succeeded has listened.
use thread_component.Prelude.{
  ℕ, ◌≡◌, ◌⊎◌, refl, sym, subst, ◌∙◌, Bool, true, false, Option, none, some, List, [], ◌∷◌, ◌==◌,
  arith, Bool-cases, inl, inr,
}
use thread_component.HttpClient.Text.{Text}
use mathlib.Core.List.{Mem, mem-cons_self, mem-cons_of_mem}
use thread_component.Prelude.Int.{ℤ}
use thread_component.BaseWorker.Api.{is_zero}
use thread_component.BaseWorker.{
  Pc, pre_run, check, enter, body, finish, exited, caught, start_locked, take_finished,
}
use thread_component.HttpServer.Messages.{not_initialized, stop_requested_text, unhandled_server}
use thread_component.HttpServer.Start.{
  StartState, Report, reset_start_state, resolve_start_if_pending, wait_until_listening,
}
use thread_component.HttpServer.Serving.{
  failed, Library, Ending, finishes, throws, throws_other, report, reset_start,
}
use thread_component.HttpServer.Hosted.{
  Preparation, Hosted, RunPc, loads, serves, resets, Event, listens, ends, Move, requests_stop,
  hook_reads, hook_stops, hook_reports, advances, end_text, leave_start, end_serving, load_server,
  run_move, prepare, advance, ask_stop, read_server, move, moves, start_hosted,
}

abbrev pub listened : ℕ → Report
listened port = record { success = true; port = port; error_message = [] }

-- What a move does to the state of the start: nothing, or it reports a failure, or it is the library's
-- call that the
-- server listens, and reports that.
data Tells (m : Move) (s : StartState) : StartState → Type 0 where
  nothing : Tells m s s
  fails : (message : Text) → Tells m s (resolve_start_if_pending (failed message) s)
  succeeds :
      (port : ℕ)
      → m ≡ advances (listens port)
      → Tells m s (resolve_start_if_pending (listened port) s)

-- The ports that the library called back with.
unfoldable pub ports : List Move → List ℕ
ports [] = []
ports (advances (listens port) ∷ ms) = port ∷ ports ms
ports (m ∷ ms) = ports ms

module _ {H E : Type 0} where
  prepare-Tells :
      (make : Preparation H E) (m : Move) (e : Ending) (s : Hosted H E)
      → Tells m s.impl.start (prepare make e s).impl.start
  unfolding prepare
  prepare-Tells make m e s = elim (make.outcome e s.impl) [
    | inl (_, same) ↦ subst (Tells m s.impl.start) (sym same) nothing
    | inr (_, message, told) ↦ subst (Tells m s.impl.start) (sym told) (fails message)
  ]

  load_server-Tells :
      (m : Move) (o : Option (Library H E)) (s : Hosted H E)
      → Tells m s.impl.start (load_server o s).impl.start
  unfolding load_server report
  load_server-Tells m none s = fails (not_initialized s.impl.protocol)
  load_server-Tells m (some library) s = nothing

  end_serving-Tells :
      (m : Move) (e : Ending) (s : Hosted H E) → Tells m s.impl.start (end_serving e s).impl.start
  unfolding end_serving leave_start report
  end_serving-Tells m finishes s = fails (end_text s.impl.protocol s.worker.stop_requested finishes)
  end_serving-Tells m (throws what) s = fails what
  end_serving-Tells m throws_other s = fails (unhandled_server s.impl.protocol)

  run_move-Tells :
      (run_pc : RunPc) (event : Event) (s : Hosted H E)
      → Tells (advances event) s.impl.start (run_move run_pc event s).impl.start
  unfolding run_move report
  run_move-Tells loads event s = load_server-Tells (advances event) s.impl.server s
  run_move-Tells serves (listens port) s = succeeds port refl
  run_move-Tells serves (ends e) s = end_serving-Tells (advances (ends e)) e s
  run_move-Tells resets event s = nothing

  advance-Tells :
      (make : Preparation H E) (pc : Pc Ending) (event : Event) (s : Hosted H E)
      → Tells (advances event) s.impl.start (advance make pc event s).impl.start
  unfolding advance
  advance-Tells make pre_run (listens port) s = nothing
  advance-Tells make pre_run (ends e) s = prepare-Tells make (advances (ends e)) e s
  advance-Tells make check event s = nothing
  advance-Tells make enter event s = nothing
  advance-Tells make body event s = run_move-Tells s.run_pc event s
  advance-Tells make (caught e) event s = nothing
  advance-Tells make finish event s = nothing
  advance-Tells make exited event s = nothing

  read_server-start :
      (o : Option (Library H E)) (s : Hosted H E) → (read_server o s).impl.start ≡ s.impl.start
  unfolding read_server
  read_server-start none s = refl
  read_server-start (some library) s = refl

  move-Tells :
      (make : Preparation H E) (throwing : Bool) (m : Move) (s : Hosted H E)
      → Tells m s.impl.start (move make throwing m s).impl.start
  unfolding move ask_stop report
  move-Tells make throwing requests_stop s = nothing
  move-Tells make throwing hook_reads s = elim (Bool-cases (s.to_read == 0)) [
    | inl e ↦ rw e nothing
    | inr e ↦ rw (e, read_server-start s.impl.server s) nothing
  ]
  move-Tells make throwing hook_stops s = elim (Bool-cases (s.to_stop == 0)) [
    | inl e ↦ rw e nothing
    | inr e ↦ rw e nothing
  ]
  move-Tells make throwing hook_reports s = elim (Bool-cases (s.to_report == 0)) [
    | inl e ↦ rw e nothing
    | inr e ↦ rw e (fails (stop_requested_text s.impl.protocol))
  ]
  move-Tells make throwing (advances event) s = advance-Tells make s.pc event s

Tells-succeeded :
    (m : Move) (s t : StartState)
    → Tells m s t
    → t.start_succeeded ≡ true
    → ((s.start_succeeded ≡ true) × (t.listening_port ≡ s.listening_port))
      ⊎ (m ≡ advances (listens t.listening_port))
unfolding resolve_start_if_pending
Tells-succeeded m s _ nothing h = inl (h, refl)
Tells-succeeded m s _ (fails message) h = elim (Bool-cases s.start_resolved) [
  | inl e ↦ inl (ground (arith, e, h), ground (arith, e))
  | inr e ↦ absurd (ground (arith, e, h))
]
Tells-succeeded m s _ (succeeds port e) h = elim (Bool-cases s.start_resolved) [
  | inl f ↦ inl (ground (arith, f, h), ground (arith, f))
  | inr f ↦ inr (rw f e)
]

ports-later : (p : ℕ) (m : Move) (ms : List Move) → Mem p (ports ms) → Mem p (ports (m ∷ ms))
unfolding ports
ports-later p requests_stop ms h = h
ports-later p hook_reads ms h = h
ports-later p hook_stops ms h = h
ports-later p hook_reports ms h = h
ports-later p (advances (listens port)) ms h = mem-cons_of_mem port h
ports-later p (advances (ends e)) ms h = h

ports-now : (p : ℕ) (m : Move) (ms : List Move) → m ≡ advances (listens p) → Mem p (ports (m ∷ ms))
unfolding ports
ports-now p m ms e = subst (λ n. Mem p (ports (n ∷ ms))) (sym e) mem-cons_self

moves-succeeded :
    {H E : Type 0} (make : Preparation H E) (throwing : Bool) (ms : List Move) (s : Hosted H E)
    → let t = (moves make throwing ms s).impl.start in
      t.start_succeeded ≡ true
      → ((s.impl.start.start_succeeded ≡ true) × (t.listening_port ≡ s.impl.start.listening_port))
        ⊎ Mem t.listening_port (ports ms)
unfolding moves
moves-succeeded make throwing [] s h = inl (h, refl)
moves-succeeded make throwing (m ∷ ms) s h =
    let s' = move make throwing m s in
    let t = (moves make throwing ms s').impl.start in
    elim (moves-succeeded make throwing ms s' h) [
      | inr later ↦ inr (ports-later t.listening_port m ms later)
      | inl (k, e) ↦
          elim (Tells-succeeded m s.impl.start s'.impl.start (move-Tells make throwing m s) k) [
            | inl (l, f) ↦ inl (l, e ∙ f)
            | inr f ↦ inr (
                subst (λ p. Mem p (ports (m ∷ ms))) (sym e)
                  (ports-now s'.impl.start.listening_port m ms f))
          ]
    ]

start_hosted-succeeded :
    {H E : Type 0} (s : Hosted H E) → (start_hosted s).0.impl.start.start_succeeded ≡ false
unfolding start_hosted reset_start reset_start_state
start_hosted-succeeded s = elim (Bool-cases (start_locked true (take_finished s.worker).0).1) [
  | inl e ↦ rw e refl
  | inr e ↦ rw e refl
]

-- One start of a server whose `preRun` is like those of HTTP and HTTPS, with any moves of its thread and
-- of callers that stop it, in any order, and whether or not `stop` of the library throws: where
-- `startThread` with a timeout that is not 0 then returns true, the library has called back during
-- this start that it listens, on the port that `listeningPort` returns.
pub start_hosted-listened :
    {H E : Type 0} (make : Preparation H E) (throwing : Bool) (ms : List Move) (timeout : ℤ)
    (s : Hosted H E)
    → is_zero timeout ≡ false
    → wait_until_listening timeout (moves make throwing ms (start_hosted s).0).impl.start ≡ true
    → Mem (moves make throwing ms (start_hosted s).0).impl.start.listening_port (ports ms)
unfolding wait_until_listening
start_hosted-listened make throwing ms timeout s n h =
    let s' = (start_hosted s).0 in
    let k : (moves make throwing ms s').impl.start.start_succeeded ≡ true = ground (arith, n, h) in
    elim (moves-succeeded make throwing ms s' k) [
      | inl (l, _) ↦ absurd (ground (arith, l, start_hosted-succeeded s))
      | inr m ↦ m
    ]
