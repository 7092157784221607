-- ===== src/HttpServer/Hosted.antt =====
-- cHTTPServer.cpp on cBaseWorker_V2.h: one start of the server, with its thread and the callers that
-- stop it. Each block that holds a mutex, each access of the atomic flag and each call of the library is one
-- move; callers and the thread move in any order. `preRun` is one move. No other call of
-- `startThread` is made meanwhile.
use thread_component.Prelude.{
  ◌≡◌, ◌⊎◌, ℕ, suc, ◌+◌, ◌-◌, Bool, true, false, Option, none, some, List, [], ◌∷◌, if◌then◌else◌,
  ◌==◌,
}
use thread_component.BaseWorker.{
  Worker, Pc, pre_run, enter, body, Choice, completes, refuses, raises, request_stop, take_finished,
  start_locked, thread_step,
}
use thread_component.HttpClient.Text.{Text}
use thread_component.HttpServer.Start.{Report, resolve_start_if_pending}
use thread_component.HttpServer.Messages.{
  stopped, exited_unexpectedly, unhandled_server, not_initialized, stop_requested_text,
}
use thread_component.HttpServer.Serving.{
  Library, Impl, Ending, finishes, throws, throws_other, failed, report, reset_start,
}

-- The points of `run`: before it reads `server`, in `start` of the library, before it resets `server`.
pub data RunPc : Type 0 where
  loads serves resets : RunPc

-- The worker, its thread, the server, and how many calls of `stopTriggered` are to read `server`, to
-- call `stop` of the library on what they read, and to report.
pub record Hosted (H E : Type 0) : Type 0 where
  pub worker : Worker Ending
  pub pc : Pc Ending
  pub run_pc : RunPc
  pub impl : Impl H E
  pub to_read : ℕ
  pub to_stop : ℕ
  pub to_report : ℕ

-- What the thread meets: the library calls back that it listens, or what is under way ends.
-- Outside `preRun` and `start` of the library, either is just the next step of the thread.
pub data Event : Type 0 where
  listens : ℕ → Event
  ends : Ending → Event

pub data Move : Type 0 where
  requests_stop hook_reads hook_stops hook_reports : Move
  advances : Event → Move

abbrev pub end_text : Text → Bool → Ending → Text
end_text protocol stopping finishes =
    if stopping then stopped protocol else exited_unexpectedly protocol
end_text protocol stopping (throws what) = what
end_text protocol stopping throws_other = unhandled_server protocol

-- `preRun` of a server: what it makes of the server, and its answer. It leaves the start undecided
-- where it answers true, and has told of a failure where it answers false.
pub record Preparation (H E : Type 0) : Type 0 where
  pub pre_run : Ending → Impl H E → Impl H E × Bool
  pub outcome :
      (e : Ending) (s : Impl H E)
      → (((pre_run e s).1 ≡ true) × ((pre_run e s).0.start ≡ s.start))
        ⊎ (((pre_run e s).1 ≡ false)
            × (message : Text) × ((pre_run e s).0.start
                ≡ resolve_start_if_pending (failed message) s.start))

module _ {H E : Type 0} where
  abbrev told : Report → Hosted H E → Hosted H E
  told r s = record s { impl = report r s.impl }

  -- The worker's own step.
  unfoldable pub worker_step : Choice Ending → Pc Ending → Hosted H E → Hosted H E
  unfolding thread_step
  worker_step c pc s = let (pc', w) = thread_step c pc s.worker in record s { worker = w; pc = pc' }

  -- `run`, after `start` of the library has ended and that is reported.
  unfoldable pub leave_start : Ending → Hosted H E → Hosted H E
  unfolding worker_step
  leave_start finishes s = record s { run_pc = resets }
  leave_start (throws what) s = worker_step (raises (throws what)) body s
  leave_start throws_other s = worker_step (raises throws_other) body s

  unfoldable pub end_serving : Ending → Hosted H E → Hosted H E
  unfolding leave_start report
  end_serving e s =
      leave_start e (told (failed (end_text s.impl.protocol s.worker.stop_requested e)) s)

  unfoldable pub load_server : Option (Library H E) → Hosted H E → Hosted H E
  unfolding worker_step report
  load_server none s =
      worker_step completes body (told (failed (not_initialized s.impl.protocol)) s)
  load_server (some library) s = record s { run_pc = serves }

  unfoldable pub run_move : RunPc → Event → Hosted H E → Hosted H E
  unfolding load_server end_serving worker_step report
  run_move loads event s = load_server s.impl.server s
  run_move serves (listens port) s =
      told (record { success = true; port = port; error_message = [] }) s
  run_move serves (ends e) s = end_serving e s
  run_move resets event s =
      worker_step completes body (record s { impl = record s.impl { server = none } })

  unfoldable pub prepare : Preparation H E → Ending → Hosted H E → Hosted H E
  unfolding worker_step
  prepare p e s =
      let (impl, made) = p.pre_run e s.impl in
      worker_step (if made then completes else refuses) pre_run (record s { impl = impl })

  -- A move of the thread.
  unfoldable pub advance : Preparation H E → Pc Ending → Event → Hosted H E → Hosted H E
  unfolding run_move prepare worker_step
  advance p pre_run (listens port) s = s
  advance p pre_run (ends e) s = prepare p e s
  advance p enter event s = worker_step completes enter (record s { run_pc = loads })
  advance p body event s = run_move s.run_pc event s
  advance p pc event s = worker_step completes pc s

  -- `requestStop`, up to the call of `stopTriggered`.
  unfoldable pub ask_stop : Hosted H E → Hosted H E
  unfolding request_stop
  ask_stop s =
      let (w, triggers) = request_stop s.worker in
      record s { worker = w; to_read = if triggers then suc s.to_read else s.to_read }

  unfoldable pub read_server : Option (Library H E) → Hosted H E → Hosted H E
  read_server none s = record s { to_read = s.to_read - 1; to_report = suc s.to_report }
  read_server (some library) s = record s { to_read = s.to_read - 1; to_stop = suc s.to_stop }

  -- A move that no thread can make changes nothing. `stop_throws` tells whether `stop` of the library
  -- does, which `requestStop` catches.
  unfoldable pub move : Preparation H E → Bool → Move → Hosted H E → Hosted H E
  unfolding advance ask_stop read_server report
  move p stop_throws requests_stop s = ask_stop s
  move p stop_throws hook_reads s = if s.to_read == 0 then s else read_server s.impl.server s
  move p stop_throws hook_stops s = if s.to_stop == 0 then s else record s {
    to_stop = s.to_stop - 1;
    to_report = if stop_throws then s.to_report else suc s.to_report;
  }
  move p stop_throws hook_reports s = if s.to_report == 0 then s else record s {
    impl = report (failed (stop_requested_text s.impl.protocol)) s.impl;
    to_report = s.to_report - 1;
  }
  move p stop_throws (advances event) s = advance p s.pc event s

  unfoldable pub moves : Preparation H E → Bool → List Move → Hosted H E → Hosted H E
  unfolding move
  moves p stop_throws [] s = s
  moves p stop_throws (m ∷ ms) s = moves p stop_throws ms (move p stop_throws m s)

  -- `startThread` up to its wait, where the thread can be made. The flag tells whether it was started.
  unfoldable pub start_hosted : Hosted H E → Hosted H E × Bool
  unfolding reset_start take_finished start_locked
  start_hosted s =
      let (w, started) = start_locked true (take_finished s.worker).0 in
      let s' = record s { impl = reset_start s.impl } in
      if started then (record s' { worker = w; pc = pre_run }, true) else (s', false)

  -- The calls of `stopTriggered` that are not over.
  abbrev pub pending : Hosted H E → ℕ
  pending s = s.to_read + s.to_stop + s.to_report
