-- ===== src/HttpServer/HostedTests.antt =====
-- The theorem on whole starts of an HTTP server at a concrete input, and runs.
use thread_component.Prelude.{ℕ, List, ◌≡◌, refl, true, false, none, [], ◌∷◌}
use thread_component.BaseWorker.{Worker, running}
use thread_component.HttpServer.Messages.{http}
use thread_component.HttpServer.Serving
use thread_component.HttpServer.Serving.{finishes}
use thread_component.HttpServer.Setup.{new_impl}
use thread_component.BaseWorker
use thread_component.BaseWorker.{Pc}
use thread_component.HttpServer.Hosted
use thread_component.HttpServer.Hosted.{
  Hosted, requests_stop, hook_reads, hook_stops, hook_reports, advances, ends, pending,
  start_hosted, loads,
}
use thread_component.HttpServer.Preparations.{pre_run_with, http_preparation, https_preparation}
use thread_component.HttpServer.Decided.{start_hosted-decided}
use thread_component.HttpServer.Serving.{finishes}
use mathlib.Core.List.{Mem}
use thread_component.Prelude.Int.{pos}
use thread_component.HttpServer.Start.{
  wait_until_listening, resolve_start_if_pending, reset_start_state,
}
use thread_component.HttpServer.Hosted.{listens}
use thread_component.HttpServer.Listening.{ports, start_hosted-listened}

abbrev idle : Hosted ℕ ℕ
idle = record {
  worker = BaseWorker.new;
  pc = Pc.exited;
  run_pc = loads;
  impl = new_impl http 80 [] 1;
  to_read = 0;
  to_stop = 0;
  to_report = 0;
}

-- A stop before the thread tests the flag: `run` is left out, and the hook decides.
abbrev early_stop : List Hosted.Move
early_stop =
    requests_stop
    ∷ advances (ends finishes)
    ∷ hook_reads
    ∷ advances (ends finishes)
    ∷ advances (ends finishes)
    ∷ hook_stops
    ∷ hook_reports
    ∷ []

early_stop-exited :
    (Hosted.moves http_preparation false early_stop (start_hosted idle).0).pc ≡ Pc.exited
unfolding Hosted.moves start_hosted Serving.pre_run
early_stop-exited = refl

early_stop-pending :
    pending (Hosted.moves http_preparation false early_stop (start_hosted idle).0) ≡ 0
unfolding Hosted.moves start_hosted Serving.pre_run
early_stop-pending = refl

start_hosted-decided_example :
    (Hosted.moves http_preparation false early_stop (start_hosted idle).0).impl.start.start_resolved
    ≡ true
start_hosted-decided_example =
    start_hosted-decided http_preparation early_stop idle refl early_stop-exited early_stop-pending

-- A hook that has read the server's address, and a run that ends and destroys the server before the
-- hook calls `stop` on it.
abbrev late_stop : List Hosted.Move
late_stop =
    advances (ends finishes)
    ∷ advances (ends finishes)
    ∷ advances (ends finishes)
    ∷ advances (ends finishes)
    ∷ requests_stop
    ∷ hook_reads
    ∷ advances (ends finishes)
    ∷ advances (ends finishes)
    ∷ []

late_stop-run :
    let s = Hosted.moves http_preparation false late_stop (start_hosted idle).0 in
    (s.to_stop ≡ 1) × (s.impl.server ≡ none)
unfolding Hosted.moves start_hosted Serving.pre_run
late_stop-run = (refl, refl)

-- The server listens, and a stop comes later.
abbrev listening_first : List Hosted.Move
listening_first =
    advances (ends finishes)
    ∷ advances (ends finishes)
    ∷ advances (ends finishes)
    ∷ advances (ends finishes)
    ∷ advances (listens 8080)
    ∷ requests_stop
    ∷ hook_reads
    ∷ hook_stops
    ∷ hook_reports
    ∷ []

listening_first-wait :
    wait_until_listening
      (pos 5)
      (Hosted.moves
        (https_preparation http http [])
        true
        listening_first
        (start_hosted idle).0).impl.start
    ≡ true
unfolding wait_until_listening Hosted.moves start_hosted pre_run_with Serving.pre_run
    resolve_start_if_pending reset_start_state
listening_first-wait = refl

start_hosted-listened_example :
    Mem
      (Hosted.moves
        (https_preparation http http [])
        true
        listening_first
        (start_hosted idle).0).impl.start.listening_port
      (ports listening_first)
start_hosted-listened_example =
    start_hosted-listened (https_preparation http http []) true listening_first (pos 5) idle refl
      listening_first-wait
