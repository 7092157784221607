-- ===== src/HttpServer/Points.antt =====
-- cHTTPServer.cpp on cBaseWorker_V2.h: what holds at each point of the thread of a start.
use thread_component.Prelude.{
  ap, ◌∙◌, subst, ℕ, ◌≤◌, ◌≡◌, refl, sym, inl, inr, Bool, true, false, Option, none, some, arith,
  Bool-cases,
}
use thread_component.BaseWorker.{
  State, starting, running, stopping, stopped, unknown, Worker, Pc, pre_run, check, enter, body,
  finish, exited, caught, request_stop, stop_in, thread_step,
}
use thread_component.HttpServer.Start.{Report, resolve_start_if_pending}
use thread_component.HttpServer.Messages.{not_initialized, unhandled_server}
use thread_component.HttpServer.Serving.{
  failed, Library, Impl, Ending, finishes, throws, throws_other, report,
}
use thread_component.HttpServer.Hosted.{
  Preparation, end_text, Hosted, RunPc, loads, serves, resets, Event, listens, ends, worker_step,
  leave_start, end_serving, load_server, run_move, prepare, advance, pending,
}

-- A state in which `requestStop` calls the hook.
abbrev pub IsLive : State → Type 0
IsLive starting = Unit
IsLive stopping = Unit
IsLive _ = ⊥

-- A decided start needs no call of `stopTriggered`.
pub now : {b : Bool} {n : ℕ} → b ≡ true → b ≡ false → 1 ≤ n
now e f = absurd (ground (arith, e, f))

-- A live worker stays so when it is asked to stop, and calls the hook.
pub request_stop-IsLive :
    {E : Type 0} (w : Worker E)
    → IsLive w.state
    → IsLive (request_stop w).0.state × ((request_stop w).1 ≡ true)
unfolding request_stop stop_in
request_stop-IsLive {E} w h = by_state w.state refl h
  where
    by_state :
        (x : State)
        → w.state ≡ x
        → IsLive x
        → IsLive (stop_in x w).0.state × ((stop_in x w).1 ≡ true)
    by_state starting e h = (tt, refl)
    by_state stopping e h = (subst IsLive (sym e) h, refl)
    by_state unknown e h = absurd h
    by_state running e h = absurd h
    by_state stopped e h = absurd h

module _ {H E : Type 0} where
  abbrev pub resolved : Hosted H E → Bool
  resolved s = s.impl.start.start_resolved

  -- The start is decided, or a call of `stopTriggered` will decide it.
  abbrev pub IsSettled : Hosted H E → Type 0
  IsSettled s = resolved s ≡ false → 1 ≤ pending s

  abbrev pub IsHeeded : Hosted H E → Type 0
  IsHeeded s = IsLive s.worker.state × (s.worker.stop_requested ≡ true → IsSettled s)

  abbrev pub IsServing : RunPc → Hosted H E → Type 0
  IsServing resets s = IsSettled s
  IsServing _ s = Unit

  -- What holds at each point of the thread.
  abbrev pub Holds : Pc Ending → Hosted H E → Type 0
  Holds pre_run s = IsHeeded s
  Holds check s = IsHeeded s
  Holds enter s = Unit
  Holds body s = IsServing s.run_pc s
  Holds (caught e) s = IsSettled s
  Holds finish s = IsSettled s
  Holds exited s = IsSettled s

  pub report-resolved : (r : Report) (s : Impl H E) → (report r s).start.start_resolved ≡ true
  unfolding report resolve_start_if_pending
  report-resolved r s = ground arith

  prepare-Holds :
      (make : Preparation H E) (e : Ending) (s : Hosted H E)
      → IsHeeded s
      → Holds (prepare make e s).pc (prepare make e s)
  unfolding prepare worker_step thread_step report
  prepare-Holds make e s (live, h) = elim (make.outcome e s.impl) [
    | inl (made, same) ↦ rw made (live, λ f r. h f (ap (λ t. t.start_resolved) (sym same) ∙ r))
    | inr (made, message, told) ↦
        rw made (now (ap (λ t. t.start_resolved) told ∙ report-resolved (failed message) s.impl))
  ]

  load_server-Holds :
      (o : Option (Library H E)) (s : Hosted H E)
      → s.pc ≡ body
      → Holds (load_server o s).pc (load_server o s)
  unfolding load_server worker_step thread_step
  load_server-Holds none s p =
      now (report-resolved (failed (not_initialized s.impl.protocol)) s.impl)
  load_server-Holds (some library) s p = rw p tt

  end_serving-Holds :
      (e : Ending) (s : Hosted H E) → s.pc ≡ body → Holds (end_serving e s).pc (end_serving e s)
  unfolding end_serving leave_start worker_step thread_step
  end_serving-Holds finishes s p = rw p (
      now (
        report-resolved (failed (end_text s.impl.protocol s.worker.stop_requested finishes))
          s.impl))
  end_serving-Holds (throws what) s p = now (report-resolved (failed what) s.impl)
  end_serving-Holds throws_other s p =
      now (report-resolved (failed (unhandled_server s.impl.protocol)) s.impl)

  run_move-Holds :
      (run_pc : RunPc) (event : Event) (s : Hosted H E)
      → s.pc ≡ body
      → s.run_pc ≡ run_pc
      → IsServing run_pc s
      → Holds (run_move run_pc event s).pc (run_move run_pc event s)
  unfolding run_move end_serving leave_start worker_step thread_step
  run_move-Holds loads event s p r h = load_server-Holds s.impl.server s p
  run_move-Holds serves (listens port) s p r h = rw (p, r) tt
  run_move-Holds serves (ends e) s p r h = end_serving-Holds e s p
  run_move-Holds resets event s p r h = h

  pub advance-Holds :
      (make : Preparation H E) (pc : Pc Ending) (event : Event) (s : Hosted H E)
      → s.pc ≡ pc
      → Holds pc s
      → Holds (advance make pc event s).pc (advance make pc event s)
  unfolding advance worker_step thread_step
  advance-Holds make pre_run (listens port) s p h = subst (λ pc. Holds pc s) (sym p) h
  advance-Holds make pre_run (ends e) s p h = prepare-Holds make e s h
  advance-Holds make check event s p h = elim (Bool-cases s.worker.stop_requested) [
    | inl e ↦ rw e (h.1 e)
    | inr e ↦ rw e tt
  ]
  advance-Holds make enter event s p h = tt
  advance-Holds make body event s p h = run_move-Holds s.run_pc event s p refl h
  advance-Holds make (caught e) event s p h = h
  advance-Holds make finish event s p h = h
  advance-Holds make exited event s p h = h
