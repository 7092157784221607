-- ===== src/HttpServerV2/Starting.antt =====
-- cHTTPServer_V2.cpp: what a start of the server tells to the thread that waits for it.
use thread_component.Prelude.{
  ℕ, ◌≡◌, refl, sym, ap, ◌∙◌, Bool, true, false, Option, none, some, List, [], ◌∷◌, if◌then◌else◌,
  arith, inl, inr, ◌⊎◌,
}
use thread_component.HttpServer.Start.{
  Report, reset_start_state, resolve_start_if_pending, resolve_all, resolve_all-decided,
}
use thread_component.HttpServerV2.Server.{
  Server, reset_start, report, report_all, set_last_error, failed, IoEnd, returns, io_throws,
  io_throws_other, run_io, run_threads, process_work, Ending, finishes, run_throws,
  run_throws_other, Course, listened, restore, finish_run, run, stop_triggered,
}

-- What a decided start keeps: whether it is decided, whether it succeeded, and the listening port.
abbrev pub decided : Server → (Bool × Bool) × ℕ
decided s = ((s.start.start_resolved, s.start.start_succeeded), s.start.listening_port)

report-decided :
    (r : Report) (s : Server) → s.start.start_resolved ≡ true → decided (report r s) ≡ decided s
unfolding report resolve_start_if_pending
report-decided r s e = ground (arith, e)

report-first :
    (r : Report) (s : Server)
    → s.start.start_resolved ≡ false
    → decided (report r s) ≡ ((true, r.success), if r.success then r.port else 0)
unfolding report resolve_start_if_pending
report-first r s e = rw e refl

run_threads-decided :
    (ends : List IoEnd) (s : Server) (stop : Bool)
    → decided (run_threads ends (s, stop)).0 ≡ decided s
unfolding run_threads run_io set_last_error
run_threads-decided [] s stop = refl
run_threads-decided (returns ∷ ends) s stop = run_threads-decided ends s stop
run_threads-decided (io_throws what ∷ ends) s stop = run_threads-decided ends _ true
run_threads-decided (io_throws_other ∷ ends) s stop = run_threads-decided ends _ true

process_work-decided :
    (ends : List IoEnd) (s : Server) (stop : Bool)
    → decided (process_work ends (s, stop)).0 ≡ decided s
unfolding process_work
process_work-decided ends s stop = by_io s.io
  where
    by_io :
        (o : Option ℕ)
        → decided
            (elim o as (λ _. Server × Bool) [
              | none ↦ (s, stop)
              | some _ ↦ run_threads ends (s, stop)
            ]).0
          ≡ decided s
    by_io none = refl
    by_io (some _) = run_threads-decided ends s stop

finish_run-decided :
    (e : Ending) (stop : Bool) (s : Server)
    → decided (finish_run e stop s) ≡ decided (report (failed []) s)
unfolding finish_run restore report resolve_start_if_pending
finish_run-decided finishes stop s = ground arith
finish_run-decided (run_throws what) stop s = ground arith
finish_run-decided run_throws_other stop s = ground arith

abbrev triple : Bool → Bool → ℕ → (Bool × Bool) × ℕ
triple a b n = ((a, b), n)

triple-same :
    {a a' b b' : Bool} {n n' : ℕ} → a ≡ a' → b ≡ b' → n ≡ n' → triple a b n ≡ triple a' b' n'
triple-same p q r = rw (p, q, r) refl

report_all-decided :
    (rs : List Report) (s : Server)
    → s.start.start_resolved ≡ true
    → decided (report_all rs s) ≡ decided s
unfolding report_all
report_all-decided rs s e =
    let (h, h', h'') = resolve_all-decided rs s.start e in triple-same (h ∙ sym e) h' h''

-- The success of a server that listens on a port, and the failure of one that does not.
abbrev pub outcome : Option ℕ → (Bool × Bool) × ℕ
outcome none = ((true, false), 0)
outcome (some port) = ((true, true), port)

abbrev pub AllFail : List Report → Type 0
AllFail [] = Unit
AllFail (r ∷ rs) = (r.success ≡ false) × AllFail rs

-- No start was decided, but for a failed one.
abbrev IsOpen : Server → Type 0
IsOpen s = (s.start.start_resolved ≡ false) ⊎ (decided s ≡ outcome none)

report-IsOpen :
    (r : Report) (s : Server) → r.success ≡ false → IsOpen s → decided (report r s) ≡ outcome none
report-IsOpen r s f (inl e) = report-first r s e ∙ rw f refl
report-IsOpen r s f (inr e) = report-decided r s (ap (λ d. d.0.0) e) ∙ e

report_all-IsOpen :
    (rs : List Report) (s : Server) → AllFail rs → IsOpen s → IsOpen (report_all rs s)
unfolding report_all resolve_all report
report_all-IsOpen [] s f h = h
report_all-IsOpen (r ∷ rs) s (f, fs) h =
    report_all-IsOpen rs (report r s) fs (inr (report-IsOpen r s f h))

work-IsOpen :
    (ends : List IoEnd) (s : Server) (stop : Bool)
    → IsOpen s
    → IsOpen (process_work ends (s, stop)).0
work-IsOpen ends s stop (inl e) = inl (ap (λ d. d.0.0) (process_work-decided ends s stop) ∙ e)
work-IsOpen ends s stop (inr e) = inr (process_work-decided ends s stop ∙ e)

listened-decided :
    (o : Option ℕ) (s : Server) → s.start.start_resolved ≡ true → decided (listened o s) ≡ decided s
listened-decided none s e = refl
listened-decided (some port) s e =
    report-decided (record { success = true; port = port; error_message = [] }) s e

-- `run`, from where the server comes to listen or does not.
abbrev finished : Course → Option ℕ → Server → Server
finished c o s =
    let (s', stop) = process_work c.ends (report_all c.meanwhile (listened o s), c.stopping) in
    finish_run c.ending stop s'

finished-decides :
    (c : Course) (o : Option ℕ) (s : Server)
    → s.start.start_resolved ≡ false
    → AllFail c.meanwhile
    → decided (finished c o s) ≡ outcome o
finished-decides c none s e f =
    let r = process_work c.ends (report_all c.meanwhile s, c.stopping) in
    let still_open =
      work-IsOpen c.ends (report_all c.meanwhile s) c.stopping
        (report_all-IsOpen c.meanwhile s f (inl e)) in
    finish_run-decided c.ending r.1 r.0 ∙ report-IsOpen (failed []) r.0 refl still_open
finished-decides c (some port) s e f =
    let x = listened (some port) s in
    let y = report_all c.meanwhile x in
    let r = process_work c.ends (y, c.stopping) in
    let at_x = report-first (record { success = true; port = port; error_message = [] }) s e in
    let at_r =
      process_work-decided c.ends y c.stopping
      ∙ report_all-decided c.meanwhile x (ap (λ d. d.0.0) at_x)
      ∙ at_x in
    finish_run-decided c.ending r.1 r.0
    ∙ report-decided (failed []) r.0 (ap (λ d. d.0.0) at_r)
    ∙ at_r

finished-decided :
    (c : Course) (o : Option ℕ) (s : Server)
    → s.start.start_resolved ≡ true
    → decided (finished c o s) ≡ decided s
finished-decided c o s e =
    let at_x = listened-decided o s e in
    let x = listened o s in
    let y = report_all c.meanwhile x in
    let r = process_work c.ends (y, c.stopping) in
    let at_r =
      process_work-decided c.ends y c.stopping
      ∙ report_all-decided c.meanwhile x (ap (λ d. d.0.0) at_x ∙ e)
      ∙ at_x in
    finish_run-decided c.ending r.1 r.0
    ∙ report-decided (failed []) r.0 (ap (λ d. d.0.0) at_r ∙ e)
    ∙ at_r

-- The outcome of a run, given what other threads report before the server listens.
abbrev pub outcome_after : List Report → Option ℕ → (Bool × Bool) × ℕ
outcome_after [] o = outcome o
outcome_after (r ∷ rs) o = outcome none

early-decides :
    (c : Course) (rs : List Report) (s : Server)
    → s.start.start_resolved ≡ false
    → AllFail rs
    → AllFail c.meanwhile
    → decided (finished c c.listens (report_all rs s)) ≡ outcome_after rs c.listens
unfolding report_all resolve_all report
early-decides c [] s e f g = finished-decides c c.listens s e g
early-decides c (r ∷ rs) s e (f, fs) g =
    let at_first = report-IsOpen r s f (inl e) in
    let at_last = report_all-decided rs (report r s) (ap (λ d. d.0.0) at_first) ∙ at_first in
    finished-decided c c.listens (report_all (r ∷ rs) s) (ap (λ d. d.0.0) at_last) ∙ at_last

-- From a start that is not decided, whatever the threads do and however `run` ends, and where the
-- reports of other threads are failures: at its end the start is decided, as a success with its port
-- where the server came to listen before any of them, and as a failure with the port 0 otherwise.
pub run-decides :
    (c : Course) (s : Server)
    → s.start.start_resolved ≡ false
    → AllFail c.early
    → AllFail c.meanwhile
    → decided (run c s) ≡ outcome_after c.early c.listens
unfolding run
run-decides c s e f g = early-decides c c.early s e f g

abbrev pub has_io : Option ℕ → Bool
has_io none = false
has_io (some io) = true

-- A stop that comes after a start decides it only where `preRun` has made the context: before that it
-- tells nothing, and the waiting thread is left to its timeout where the worker then skips `run`.
pub stop_triggered-resolves :
    (s : Server) → (stop_triggered (reset_start s)).start.start_resolved ≡ has_io s.io
unfolding stop_triggered reset_start report resolve_start_if_pending reset_start_state
stop_triggered-resolves s = ground arith
