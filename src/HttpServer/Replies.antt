-- ===== src/HttpServer/Replies.antt =====
-- cHTTPServer.cpp: the calls that prepare a server, `preRun`, a request, and the bytes of the response.
use thread_component.Prelude.{ℕ, ◌≡◌, ◌∙◌, Bool, Option, none, some, List, []}
use thread_component.HttpClient.Text.{Text}
use thread_component.HttpServer.Answer.{Answer}
use thread_component.HttpServer.Snapshot.{Incoming, make_request_snapshot}
use thread_component.HttpServer.Requests.{
  RequestHandler, ErrorHandler, Outcome, HttpLibrary, Target, resource_at, default, call_from,
  call_target, serve_request, unhandled_at,
}
use thread_component.HttpServer.Response.{Printing}
use thread_component.HttpServer.Framing.{head_lines, PrintsLines}
use thread_component.HttpServer.Serving.{Impl, finishes, pre_run, make_library}
use thread_component.HttpServer.Setup.{Setup, new_impl, set_up_all}
use thread_component.HttpServer.Configured.{
  last_resource, last_default, last_handler, set_up_all-make_library,
}
use thread_component.HttpServer.Answered.{reply, HaveLines, read_answer, serve_request-read}

abbrev pub HttpSetup : Type 0
HttpSetup = Setup RequestHandler ErrorHandler

abbrev pub HttpImpl : Type 0
HttpImpl = Impl RequestHandler ErrorHandler

-- The handler that the calls leave for a target and a method, and its text for other exceptions.
abbrev pub handler_at : List (Bool × HttpSetup) → Target → Text → Option RequestHandler
handler_at xs (resource_at path) m = last_resource xs none path m
handler_at xs default m = last_default xs none m

-- What a client reads, where there is a server and a function for the request.
abbrev pub read_outcome : Printing → Answer → Option Outcome → Option (List Text × Text)
read_outcome p a none = none
read_outcome p a (some o) = read_answer p a o.written

abbrev pub exchange :
    (HttpLibrary → Option Outcome)
    → Printing
    → Answer
    → Option HttpLibrary
    → Option (List Text × Text)
exchange call p a none = none
exchange call p a (some l) = read_outcome p a (call l)

served-read :
    (p : Printing) (unhandled : Text) (handler : RequestHandler) (on_error : Option ErrorHandler)
    (o : Option RequestHandler) (e : Option ErrorHandler) (incoming : Option Incoming)
    (last_error : Text)
    → o ≡ some handler
    → e ≡ on_error
    → PrintsLines p
    → HaveLines (handler (make_request_snapshot incoming)).0
    → let a = reply unhandled handler on_error incoming in
      read_outcome p a
        (elim o [ none ↦ none | some f ↦ some (serve_request unhandled f e incoming last_error) ])
      ≡ some (head_lines p a, a.body)
served-read p unhandled handler on_error o e incoming last_error h k lines have =
    rw (h, k) (serve_request-read p unhandled handler on_error incoming last_error lines have)

-- A request to the server that is made of these calls, whose functions have this text.
pub make_library-read :
    (p : Printing) (unhandled : Text) (xs : List (Bool × HttpSetup)) (protocol : Text) (port : ℕ)
    (address : Text) (pool : ℕ) (t : Target) (m : Text) (handler : RequestHandler)
    (incoming : Option Incoming) (last_error : Text)
    → handler_at xs t m ≡ some handler
    → PrintsLines p
    → HaveLines (handler (make_request_snapshot incoming)).0
    → let l = make_library (set_up_all xs (new_impl protocol port address pool)) in
      let a = reply unhandled handler (last_handler xs none) incoming in
      read_outcome p a (call_from unhandled l t m incoming last_error)
      ≡ some (head_lines p a, a.body)
unfolding call_from
make_library-read p u xs protocol port address pool (resource_at path) m handler incoming error h k
      lines =
    let l : HttpLibrary = make_library (set_up_all xs (new_impl protocol port address pool)) in
    let (_, a, _, e) = set_up_all-make_library xs protocol port address pool path m in
    served-read p u handler (last_handler xs none) (l.resource path m) l.on_error incoming error
      (a ∙ h) e k lines
make_library-read p u xs protocol port address pool default m handler incoming error h k lines =
    let l : HttpLibrary = make_library (set_up_all xs (new_impl protocol port address pool)) in
    let (_, _, a, e) = set_up_all-make_library xs protocol port address pool [] m in
    served-read p u handler (last_handler xs none) (l.default_resource [] m) l.on_error incoming
      error (a ∙ h) e k lines

-- A request to a server that was prepared by any calls in any order, and whose `preRun` got through,
-- where the library chooses the function of a path and a method, or the default function of a method,
-- and the last accepted call for these gave a handler. The bytes of the response are then read as one
-- answer, which the handler and the last error handler determine: its status line, the lines of its
-- headers and of the body's length, and exactly its body. Conditions: the handler answers and ends, and
-- keeps no copy of the response; no header in an answer of it has a carriage return, and no text that
-- the library prints has one.
pub set_up_all-exchange :
    (p : Printing) (xs : List (Bool × HttpSetup)) (protocol : Text) (port : ℕ) (address : Text)
    (pool : ℕ) (t : Target) (m : Text) (handler : RequestHandler) (incoming : Option Incoming)
    (last_error : Text)
    → handler_at xs t m ≡ some handler
    → PrintsLines p
    → HaveLines (handler (make_request_snapshot incoming)).0
    → let s = (pre_run finishes (set_up_all xs (new_impl protocol port address pool))).0 in
      let a = reply (unhandled_at t) handler (last_handler xs none) incoming in
      exchange (λ l. call_target l t m incoming last_error) p a s.server
      ≡ some (head_lines p a, a.body)
unfolding pre_run call_target
set_up_all-exchange p xs protocol port address pool t =
    make_library-read p (unhandled_at t) xs protocol port address pool t
