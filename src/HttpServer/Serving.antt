-- ===== src/HttpServer/Serving.antt =====
-- cHTTPServer.cpp: `preRun`, `run` and `stopTriggered`.
use thread_component.Prelude.{
  ℕ, ◌≡◌, refl, sym, subst, Bool, true, false, Option, none, some, List, [], ◌∷◌, ◌++◌,
  if◌then◌else◌,
}
use thread_component.HttpClient.Text.{Text}
use thread_component.HttpServer.Messages.{
  initialize_failed, stopped, exited_unexpectedly, unhandled_server, stop_requested_text,
  not_initialized,
}
use thread_component.HttpServer.Routes.{Route, Table, install}
use thread_component.HttpServer.Settings.{Settings, Config, configure}
use thread_component.HttpServer.Start.{
  StartState, Report, reset_start_state, resolve_start_if_pending, resolve_all, resolve_all-first,
}

-- The server of the library that `preRun` makes: its configuration, its routes, and the error handler
-- that its functions have a copy of.
pub record Library (H E : Type 0) : Type 0 where
  pub config : Config
  pub resource : Table H
  pub default_resource : Table H
  pub on_error : Option E

-- `st_Impl`. `protocol` is the word of the class in its messages.
pub record Impl (H E : Type 0) : Type 0 where
  pub protocol : Text
  pub settings : Settings
  pub start : StartState
  pub resources : List (Route H)
  pub default_resources : List (Route H)
  pub error_handler : Option E
  pub server : Option (Library H E)

-- How a call of the library ends.
pub data Ending : Type 0 where
  finishes : Ending
  throws : Text → Ending
  throws_other : Ending

abbrev pub failed : Text → Report
failed message = record { success = false; port = 0; error_message = message }

-- What happens in `run`: what other threads report before the library listens; the port,
-- where it calls back that it does; what they report then; whether a stop is requested at last; and
-- how `start` ends.
pub record Course : Type 0 where
  pub early : List Report
  pub listens : Option ℕ
  pub meanwhile : List Report
  pub stopping : Bool
  pub ending : Ending

abbrev pub nothing : {H : Type 0} → Table H
nothing path method = none

-- What the functions of `run` report, the last of them at its end.
abbrev pub listened : Option ℕ → List Report
listened none = []
listened (some port) = record { success = true; port = port; error_message = [] } ∷ []

abbrev pub last_report : Text → Course → Report
last_report protocol c = elim c.ending [
  | finishes ↦ failed (if c.stopping then stopped protocol else exited_unexpectedly protocol)
  | throws what ↦ failed what
  | throws_other ↦ failed (unhandled_server protocol)
]

module _ {H E : Type 0} where
  -- `setErrorHandler`; `clearErrorHandler` is the same with none.
  unfoldable pub set_error_handler : Bool → Option E → Impl H E → Impl H E
  set_error_handler running handler s = if running then s else record s { error_handler = handler }

  unfoldable pub report : Report → Impl H E → Impl H E
  report r s = record s { start = resolve_start_if_pending r s.start }

  unfoldable pub reset_start : Impl H E → Impl H E
  reset_start s = record s { start = reset_start_state s.start }

  abbrev pub make_library : Impl H E → Library H E
  make_library s = record {
    config = configure s.settings;
    resource = install s.resources nothing;
    default_resource = install s.default_resources nothing;
    on_error = s.error_handler;
  }

  unfoldable pub pre_run : Ending → Impl H E → Impl H E × Bool
  unfolding report
  pre_run finishes s = (record s { server = some (make_library s) }, true)
  pre_run (throws what) s = (record (report (failed what) s) { server = none }, false)
  pre_run throws_other s =
      (record (report (failed (initialize_failed s.protocol)) s) { server = none }, false)

  abbrev pub serve : Course → Impl H E → Impl H E
  serve c s = record s {
    start =
        resolve_all
          (c.early ++ (listened c.listens ++ (c.meanwhile ++ last_report s.protocol c ∷ [])))
          s.start;
    server = elim c.ending [ finishes ↦ none | _ ↦ s.server ];
  }

  unfoldable pub run : Course → Impl H E → Impl H E
  unfolding report
  run c s = elim s.server [
    | none ↦ report (failed (not_initialized s.protocol)) s
    | some library ↦ serve c s
  ]

  -- `stopTriggered`; `throws` tells whether `stop` of the library does.
  unfoldable pub stop_triggered : Bool → Impl H E → Impl H E
  unfolding report
  stop_triggered stop_throws s =
      let told = report (failed (stop_requested_text s.protocol)) s in
      elim s.server [ none ↦ told | some library ↦ if stop_throws then s else told ]

abbrev reports : List Report → Option ℕ → List Report → Report → List Report
reports early o rs r = early ++ (listened o ++ (rs ++ r ∷ []))

-- The first report of a run.
abbrev pub first_of : List Report → Option ℕ → List Report → Report → Report
first_of (x ∷ early) o rs r = x
first_of [] (some port) rs r = record { success = true; port = port; error_message = [] }
first_of [] none [] r = r
first_of [] none (x ∷ rs) r = x

reports-first :
    (early : List Report) (o : Option ℕ) (rs : List Report) (r : Report)
    → (rest : List Report) × (reports early o rs r ≡ first_of early o rs r ∷ rest)
reports-first (x ∷ early) o rs r = (reports early o rs r, refl)
reports-first [] (some port) rs r = (rs ++ r ∷ [], refl)
reports-first [] none [] r = ([], refl)
reports-first [] none (x ∷ rs) r = (rs ++ r ∷ [], refl)

-- A whole start: from `resetStartState` over `preRun` to the end of `run`, whichever way that ends. The
-- start is decided then, by the first report that was made: that of another thread before the server
-- listens, if there was one; else that it listens, with its port, if it came to that; else that of
-- another thread, if there was one; else why `run` ended.
pub serve-decides :
    {H E : Type 0} (c : Course) (s : Impl H E)
    → let t = (run c (pre_run finishes (reset_start s)).0).start in
      let r = first_of c.early c.listens c.meanwhile (last_report s.protocol c) in
      (t.start_resolved ≡ true)
      × (t.start_succeeded ≡ r.success)
      × (t.listening_port ≡ (if r.success then r.port else 0))
unfolding run pre_run reset_start
serve-decides c s =
    let (rest, e) = reports-first c.early c.listens c.meanwhile (last_report s.protocol c) in
    let r = first_of c.early c.listens c.meanwhile (last_report s.protocol c) in
    subst
      (λ rs.
        let t = resolve_all rs (reset_start_state s.start) in
        (t.start_resolved ≡ true)
        × (t.start_succeeded ≡ r.success)
        × (t.listening_port ≡ (if r.success then r.port else 0)))
      (sym e) (resolve_all-first r rest s.start)
