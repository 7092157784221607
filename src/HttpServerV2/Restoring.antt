-- ===== src/HttpServerV2/Restoring.antt =====
-- cHTTPServer_V2.cpp: the error handler of the user over the starts and ends of the server.
use thread_component.Prelude.{
  ℕ, zero, suc, ◌≡◌, refl, ap, ◌∙◌, Bool, true, Option, none, some, List, [], ◌∷◌, ◌≢◌,
}
use thread_component.HttpClient.Text.{Text}
use thread_component.HttpServerV2.Server.{
  Handler, user, wrapper, Server, report, report_all, set_last_error, makes, pre_run, call_handler,
  IoEnd, returns, io_throws, io_throws_other, run_io, run_threads, process_work, Ending, finishes,
  run_throws, run_throws_other, Course, listened, restore, finish_run, run,
}

-- What only `preRun` and the end of `run` change.
abbrev handlers : Server → (Option Handler × Option Handler) × Option ℕ
handlers s = ((s.on_error, s.user_on_error), s.io)

run_threads-handlers :
    (ends : List IoEnd) (s : Server) (stop : Bool)
    → handlers (run_threads ends (s, stop)).0 ≡ handlers s
unfolding run_threads run_io set_last_error
run_threads-handlers [] s stop = refl
run_threads-handlers (returns ∷ ends) s stop = run_threads-handlers ends s stop
run_threads-handlers (io_throws what ∷ ends) s stop = run_threads-handlers ends _ true
run_threads-handlers (io_throws_other ∷ ends) s stop = run_threads-handlers ends _ true

abbrev at_io : List IoEnd → Server × Bool → Option ℕ → Server × Bool
at_io ends r o = elim o [ none ↦ r | some _ ↦ run_threads ends r ]

process_work-handlers :
    (ends : List IoEnd) (s : Server) (stop : Bool)
    → handlers (process_work ends (s, stop)).0 ≡ handlers s
unfolding process_work
process_work-handlers ends s stop = by_io s.io
  where
    by_io : (o : Option ℕ) → handlers (at_io ends (s, stop) o).0 ≡ handlers s
    by_io none = refl
    by_io (some _) = run_threads-handlers ends s stop

listened-handlers : (o : Option ℕ) (s : Server) → handlers (listened o s) ≡ handlers s
unfolding report
listened-handlers none s = refl
listened-handlers (some port) s = refl

abbrev worked : Course → Server → Server
worked c s =
    (process_work c.ends
      (report_all c.meanwhile (listened c.listens (report_all c.early s)), c.stopping)).0

worked-handlers : (c : Course) (s : Server) → handlers (worked c s) ≡ handlers s
unfolding report_all
worked-handlers c s =
    process_work-handlers c.ends
      (report_all c.meanwhile (listened c.listens (report_all c.early s))) c.stopping
    ∙ listened-handlers c.listens (report_all c.early s)

run-finishes :
    (c : Course) (s : Server)
    → c.ending ≡ finishes
    → handlers (run c s) ≡ ((s.user_on_error, none), none)
unfolding run finish_run restore report
run-finishes c s e = rw e (ap (λ h. ((h.0.1, none), none)) (worked-handlers c s))

run-throws : (c : Course) (s : Server) → c.ending ≢ finishes → handlers (run c s) ≡ handlers s
unfolding run finish_run report
run-throws c s n = throwing c.ending refl
  where
    throwing : (e : Ending) → c.ending ≡ e → handlers (run c s) ≡ handlers s
    throwing finishes e = absurd (n e)
    throwing (run_throws what) e = rw e (worked-handlers c s)
    throwing run_throws_other e = rw e (worked-handlers c s)

-- A start whose `run` comes to its end.
abbrev cycle : ℕ × Course → Server → Server
cycle (io, c) s = run c (pre_run (makes io) s).0

abbrev pub cycles : List (ℕ × Course) → Server → Server
cycles [] s = s
cycles (x ∷ xs) s = cycles xs (cycle x s)

abbrev pub AllFinish : List (ℕ × Course) → Type 0
AllFinish [] = Unit
AllFinish ((io, c) ∷ xs) = (c.ending ≡ finishes) × AllFinish xs

cycles-on_error :
    (xs : List (ℕ × Course)) (s : Server) → AllFinish xs → (cycles xs s).on_error ≡ s.on_error
unfolding pre_run
cycles-on_error [] s h = refl
cycles-on_error ((io, c) ∷ xs) s (e, h) =
    cycles-on_error xs (cycle (io, c) s) h
    ∙ ap (λ k. k.0.0) (run-finishes c (pre_run (makes io) s).0 e)

-- After any number of starts and ends of the server whose `run` did not throw, and one more `preRun`,
-- an error of the server is told to the user's handler, once, and kept as `lastError`; a call one deep
-- is enough.
pub cycles-call_handler :
    (xs : List (ℕ × Course)) (io h : ℕ) (error : Text) (s : Server)
    → AllFinish xs
    → s.on_error ≡ some (user h)
    → let t = (pre_run (makes io) (cycles xs s)).0 in
      call_handler 1 t.on_error error t ≡ some ((h, error) ∷ [], set_last_error error t)
unfolding pre_run call_handler set_last_error
cycles-call_handler xs io h error s a e = rw (cycles-on_error xs s a ∙ e, call_handler) refl

self_call :
    (fuel : ℕ) (error : Text) (s : Server)
    → s.user_on_error ≡ some wrapper
    → call_handler fuel (some wrapper) error s ≡ none
unfolding call_handler set_last_error
self_call zero error s e = refl
self_call (suc fuel) error s e =
    ap (λ o. call_handler fuel o error (set_last_error error s)) e
    ∙ self_call fuel error (set_last_error error s) e

-- Where `run` throws, `on_error` stays what `preRun` made it; after the next `preRun` a call of it on
-- an error calls itself without end: no depth of calls is enough.
pub thrown_run-call_handler :
    (io io' : ℕ) (c : Course) (fuel : ℕ) (error : Text) (s : Server)
    → c.ending ≢ finishes
    → let t = (pre_run (makes io') (cycle (io, c) s)).0 in
      call_handler fuel t.on_error error t ≡ none
unfolding pre_run
thrown_run-call_handler io io' c fuel error s n =
    self_call fuel error (pre_run (makes io') (cycle (io, c) s)).0
      (ap (λ k. k.0.0) (run-throws c (pre_run (makes io) s).0 n))
