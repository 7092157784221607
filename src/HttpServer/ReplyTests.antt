-- ===== src/HttpServer/ReplyTests.antt =====
-- The theorems on requests to an HTTP server at concrete inputs.
use thread_component.Prelude.{
  Bool, List, if◌then◌else◌, ◌≡◌, refl, true, false, none, some, [], ◌∷◌,
}
use thread_component.HttpClient.Text
use thread_component.HttpClient.Text.{Text, iequals}
use thread_component.HttpServer.Answer.{returns}
use thread_component.HttpServer.Installed.{given}
use thread_component.HttpServer.Text.{normalize_method}
use thread_component.HttpServer.Messages.{http}
use thread_component.HttpServer.Settings.{IsUsable}
use thread_component.HttpServer.Serving.{make_library, finishes, pre_run}
use thread_component.HttpServer.Secure.{pre_run_secure}
use thread_component.HttpServer.Framing.{head_lines}
use thread_component.HttpServer.Copies.{
  Move, copies, writes, loads_responded, reads_use_count, releases, one, use_count, moves,
  some_overlap, first_written,
}
use thread_component.HttpServer.Sharing.{moves-first_written}
use thread_component.HttpServer.Snapshot.{Endpoint, Incoming}
use thread_component.HttpServer.Requests.{
  RequestHandler, ErrorHandler, resource_at, call_target, call_target_secure, unhandled_request,
  unhandled_request_secure,
}
use thread_component.HttpServer.Setup.{adds_resource, sets_default_resource, new_impl, set_up_all}
use thread_component.HttpServer.Configured.{
  resource_by, last_resource, last_default, last_handler, set_up_all-make_library,
}
use thread_component.HttpServer.Answered.{reply}
use thread_component.HttpServer.Replies.{HttpSetup, handler_at, exchange, set_up_all-exchange}
use thread_component.HttpServer.SecureReplies.{
  SecureSetup, sets_up, sets_certificate_files, shared_calls, last_files, has_files, Files,
  new_secure, set_up_all_secure, set_up_all_secure-exchange,
}
use thread_component.HttpServer.Samples.{padded, get, root, printing, printing-PrintsLines, small}
use thread_component.HttpServer.Serving.{finishes}

-- One copy of two goes without an answer, and the other writes one.
abbrev script : List Move
script =
    copies
    ∷ loads_responded
    ∷ reads_use_count
    ∷ releases
    ∷ writes small
    ∷ loads_responded
    ∷ releases
    ∷ []

script-apart : some_overlap script one ≡ false
unfolding some_overlap
script-apart = refl

script-done : use_count (moves script one) ≡ 0
unfolding moves
script-done = refl

moves-first_written_example : (moves script one).state.written ≡ first_written script one ∷ []
moves-first_written_example = moves-first_written script script-apart script-done

-- The last two copies are destroyed at once: each finds the other's share, and no answer is written.
abbrev overlapping : List Move
overlapping =
    copies ∷ loads_responded ∷ loads_responded ∷ reads_use_count ∷ reads_use_count ∷ releases
    ∷ releases ∷ []

unanswered-run :
    (use_count (moves overlapping one) ≡ 0) × ((moves overlapping one).state.written ≡ [])
unfolding moves
unanswered-run = (refl, refl)

-- A handler that answers with the body of the request.
abbrev echo : RequestHandler
echo r = (record { status_code = 200; body = r.body; headers = [] } ∷ [], returns)

abbrev local : Endpoint
local = record { address = none; port = 80 }

abbrev posted : Incoming
posted = record {
  method = get;
  path = root;
  query_string = [];
  http_version = [];
  content = 13 ∷ 10 ∷ [];
  header = [];
  query = [];
  path_match = root ∷ [];
  remote_endpoint = local;
  local_endpoint = local;
}

abbrev preparing : List (Bool × HttpSetup)
preparing =
    (false, adds_resource root padded (some echo))
    ∷ (true, adds_resource root get none)
    ∷ (false, sets_default_resource get (some echo))
    ∷ []

preparing-handler_at : handler_at preparing (resource_at root) get ≡ some echo
unfolding last_resource resource_by given normalize_method Text.is_space Text.text_eq
preparing-handler_at = refl

set_up_all-exchange_example :
    let s = (pre_run finishes (set_up_all preparing (new_impl http 80 [] 1))).0 in
    let a = reply unhandled_request echo (last_handler preparing none) (some posted) in
    exchange (λ l. call_target l (resource_at root) get (some posted) []) printing a s.server
    ≡ some (head_lines printing a, a.body)
set_up_all-exchange_example =
    set_up_all-exchange printing preparing http 80 [] 1 (resource_at root) get echo (some posted) []
      preparing-handler_at printing-PrintsLines (tt, tt)

abbrev preparing_secure : List (Bool × SecureSetup RequestHandler ErrorHandler)
preparing_secure =
    (false, sets_certificate_files root get [])
    ∷ (false, sets_up (adds_resource root padded (some echo)))
    ∷ (true, sets_certificate_files [] [] [])
    ∷ []

preparing_secure-handler_at :
    handler_at (shared_calls preparing_secure) (resource_at root) get ≡ some echo
unfolding last_resource resource_by given normalize_method Text.is_space Text.text_eq
preparing_secure-handler_at = refl

abbrev no_files : Files
no_files = ([], [], [])

set_up_all_secure-exchange_example :
    let s =
      (pre_run_secure finishes
        (set_up_all_secure preparing_secure (new_secure no_files 80 [] 1))).0 in
    let u = unhandled_request_secure in
    let a = reply u echo (last_handler (shared_calls preparing_secure) none) (some posted) in
    exchange
      (λ l. call_target_secure l (resource_at root) get (some posted) [])
      printing
      a
      s.base.server
    ≡ (if has_files (last_files preparing_secure no_files)
        then some (head_lines printing a, a.body)
        else none)
set_up_all_secure-exchange_example =
    set_up_all_secure-exchange printing preparing_secure no_files 80 [] 1 (resource_at root) get
      echo (some posted) [] preparing_secure-handler_at printing-PrintsLines (tt, tt)

set_up_all-make_library_example :
    let l = make_library (set_up_all preparing (new_impl http 80 [] 1)) in
    IsUsable l.config
    × (l.resource root get ≡ last_resource preparing none root get)
    × (l.default_resource [] get ≡ last_default preparing none get)
    × (l.on_error ≡ last_handler preparing none)
set_up_all-make_library_example = set_up_all-make_library preparing http 80 [] 1 root get
