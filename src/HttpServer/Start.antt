-- ===== src/HttpServer/Start.antt =====
-- cHTTPServer.cpp: the state of a start, and `startThread`.
use thread_component.Prelude.{
  ℕ, ◌≡◌, refl, ◌∙◌, Bool, true, false, List, [], ◌∷◌, not, is_nil, arith, if◌then◌else◌,
}
use thread_component.Prelude.Int.{ℤ, pos}
use thread_component.BaseWorker.Api.{is_zero, start_thread, start_thread_now}
use thread_component.BaseWorker.{Worker, is_stopped}
use thread_component.HttpClient.Text.{Text}

-- The fields of `st_Impl` that tell of a start.
pub record StartState : Type 0 where
  pub start_resolved : Bool
  pub start_succeeded : Bool
  pub listening_port : ℕ
  pub last_error : Text

unfoldable pub reset_start_state : StartState → StartState
reset_start_state s = record {
  start_resolved = false;
  start_succeeded = false;
  listening_port = 0;
  last_error = [];
}

-- The arguments of `resolveStartIfPending`.
pub record Report : Type 0 where
  pub success : Bool
  pub port : ℕ
  pub error_message : Text

unfoldable pub resolve_start_if_pending : Report → StartState → StartState
resolve_start_if_pending r s =
    if s.start_resolved
    then (if is_nil r.error_message then s else record s { last_error = r.error_message })
    else record {
      start_resolved = true;
      start_succeeded = r.success;
      listening_port = if r.success then r.port else 0;
      last_error = r.error_message;
    }

unfoldable pub resolve_all : List Report → StartState → StartState
unfolding resolve_start_if_pending
resolve_all [] s = s
resolve_all (r ∷ reports) s = resolve_all reports (resolve_start_if_pending r s)

-- The answer of `waitUntilListening` on what it finds when its wait is over.
unfoldable pub wait_until_listening : ℤ → StartState → Bool
wait_until_listening timeout s =
    if is_zero timeout then true else if not s.start_resolved then false else s.start_succeeded

-- `startThread`: `meanwhile` is what happens while it waits.
unfoldable pub start_listening :
    {E : Type 0}
    → Bool
    → ℤ
    → (Worker E × StartState → Worker E × StartState)
    → Worker E × StartState
    → (Worker E × StartState) × Bool
unfolding reset_start_state wait_until_listening
start_listening spawned timeout meanwhile (w, s) =
    let s' = reset_start_state s in
    let (w', started) = start_thread spawned (pos 0) (λ v. v) w in
    if not started
    then ((w', s'), false)
    else if is_zero timeout
    then ((w', s'), true)
    else (meanwhile (w', s'), wait_until_listening timeout (meanwhile (w', s')).1)

pub resolve-decided :
    (r : Report) (s : StartState)
    → s.start_resolved ≡ true
    → let s' = resolve_start_if_pending r s in
      (s'.start_resolved ≡ true)
      × (s'.start_succeeded ≡ s.start_succeeded)
      × (s'.listening_port ≡ s.listening_port)
unfolding resolve_start_if_pending
resolve-decided r s h = ground arith

pub resolve_all-decided :
    (reports : List Report) (s : StartState)
    → s.start_resolved ≡ true
    → let s' = resolve_all reports s in
      (s'.start_resolved ≡ true)
      × (s'.start_succeeded ≡ s.start_succeeded)
      × (s'.listening_port ≡ s.listening_port)
unfolding resolve_all
resolve_all-decided [] s h = (h, refl, refl)
resolve_all-decided (r ∷ reports) s h =
    let (k, succeeded, port) = resolve-decided r s h in
    let (k', succeeded', port') = resolve_all-decided reports (resolve_start_if_pending r s) k in
    (k', succeeded' ∙ succeeded, port' ∙ port)

-- After `resetStartState` the first report of the server decides the start, whatever reports follow:
-- whether it succeeded, and the port, which is 0 where it failed.
pub resolve_all-first :
    (r : Report) (reports : List Report) (s : StartState)
    → let s' = resolve_all (r ∷ reports) (reset_start_state s) in
      (s'.start_resolved ≡ true)
      × (s'.start_succeeded ≡ r.success)
      × (s'.listening_port ≡ (if r.success then r.port else 0))
unfolding resolve_all resolve_start_if_pending reset_start_state
resolve_all-first r reports s =
    resolve_all-decided reports
      (record {
        start_resolved = true;
        start_succeeded = r.success;
        listening_port = if r.success then r.port else 0;
        last_error = r.error_message;
      })
      refl

-- `startThread` on a server that is not stopped answers false and leaves the worker as it is, but it
-- has forgotten the start of the running server: the listening port is 0, and no start is resolved.
pub start_listening-forgets :
    {E : Type 0} (spawned : Bool) (timeout : ℤ)
    (meanwhile : Worker E × StartState → Worker E × StartState) (w : Worker E) (s : StartState)
    → is_stopped w.state ≡ false
    → let r = start_listening spawned timeout meanwhile (w, s) in
      (r.1 ≡ false) × (r.0.0 ≡ w) × (r.0.1.listening_port ≡ 0) × (r.0.1.start_resolved ≡ false)
unfolding start_listening reset_start_state
start_listening-forgets spawned timeout meanwhile w s h =
    rw (start_thread_now spawned (λ v. v) w, h) (refl, refl, refl, refl)
