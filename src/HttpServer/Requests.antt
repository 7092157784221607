-- ===== src/HttpServer/Requests.antt =====
-- cHTTPServer.cpp and cHTTPSServer.cpp: the functions that `preRun` gives to the server of the library,
-- which calls them with a request.
use thread_component.Prelude.{Bool, false, Option, none, some, List, [], ◌∷◌, ◌++◌}
use thread_component.Prelude.Int.{ℤ, negsuc}
use thread_component.HttpClient.Text.{Text}
use thread_component.HttpServer.Answer.{Answer, Ending, returns, throws, throws_other, handle}
use thread_component.HttpServer.Snapshot.{Incoming, Request, make_request_snapshot}
use thread_component.HttpServer.Response.{Printing, write_response}
use thread_component.HttpServer.Routes.{Table}
use thread_component.HttpServer.Serving.{Library}

-- A request handler: which answers it writes, and how it ends. An error handler: whether it throws.
abbrev pub RequestHandler : Type 0
RequestHandler = Request → List Answer × Ending

abbrev pub ErrorHandler : Type 0
ErrorHandler = Request → ℤ → Text → Bool

-- The arguments of a call of the error handler.
pub record ErrorCall : Type 0 where
  pub request : Request
  pub code : ℤ
  pub message : Text

-- What is left when a function has ended: the answers that were written, `lastError`, the calls of the
-- error
-- handler, and whether an exception leaves the function.
pub record Outcome : Type 0 where
  pub written : List Answer
  pub last_error : Text
  pub reported : List ErrorCall
  pub escapes : Bool

-- The text of what a handler throws.
unfoldable pub thrown : Text → Ending → Option Text
thrown unhandled returns = none
thrown unhandled (throws what) = some what
thrown unhandled throws_other = some unhandled

-- The error handler on a call, where there is one: whether it throws.
unfoldable pub reporter_of : Option ErrorHandler → ErrorCall → Option Bool
reporter_of none c = none
reporter_of (some f) c = some (f c.request c.code c.message)

unfoldable pub reports_of : Option ErrorHandler → ErrorCall → List ErrorCall
reports_of none c = []
reports_of (some f) c = c ∷ []

unfoldable pub is_thrown : Option Bool → Bool
is_thrown none = false
is_thrown (some b) = b

-- The code that an exception is reported with.
abbrev pub exception_code : ℤ
exception_code = negsuc 0

abbrev pub call_of : Request → Text → ErrorCall
call_of r message = record { request = r; code = exception_code; message = message }

-- What follows a handler that has written these answers and ended so; `unhandled` is the text for an
-- exception that is no `std::exception`.
unfoldable pub finish_request :
    Text → Option ErrorHandler → Request → List Answer → Ending → Text → Outcome
unfolding thrown reporter_of reports_of is_thrown handle
finish_request unhandled on_error r answers ending last_error = elim (thrown unhandled ending) [
  | none ↦
      (let (state, text) = handle unhandled answers ending none last_error in
        record { written = state.written; last_error = text; reported = []; escapes = false })
  | some what ↦
      (let reporter = reporter_of on_error (call_of r what) in
        let (state, text) = handle unhandled answers ending reporter last_error in
        record {
          written = state.written;
          last_error = text;
          reported = reports_of on_error (call_of r what);
          escapes = is_thrown reporter;
        })
]

-- The function of a route. The heartbeat is left out.
unfoldable pub serve_request :
    Text → RequestHandler → Option ErrorHandler → Option Incoming → Text → Outcome
unfolding make_request_snapshot finish_request
serve_request unhandled handler on_error incoming last_error =
    let r = make_request_snapshot incoming in
    let (answers, ending) = handler r in
    finish_request unhandled on_error r answers ending last_error

-- `on_error`, which the library calls with an error of a connection.
unfoldable pub serve_error : Option ErrorHandler → Option Incoming → ℤ → Text → Outcome
unfolding make_request_snapshot reporter_of reports_of is_thrown
serve_error on_error incoming code message =
    let call : ErrorCall = record {
      request = make_request_snapshot incoming;
      code = code;
      message = message;
    } in
    record {
      written = [];
      last_error = message;
      reported = reports_of on_error call;
      escapes = is_thrown (reporter_of on_error call);
    }

-- "Unhandled request handler exception" and "Unhandled default handler exception".
abbrev pub unhandled_request : Text
unhandled_request =
    85 ∷ 110 ∷ 104 ∷ 97 ∷ 110 ∷ 100 ∷ 108 ∷ 101 ∷ 100 ∷ 32 ∷ 114 ∷ 101 ∷ 113 ∷ 117 ∷ 101 ∷ 115 ∷ 116
    ∷ 32 ∷ 104 ∷ 97 ∷ 110 ∷ 100 ∷ 108 ∷ 101 ∷ 114 ∷ 32 ∷ 101 ∷ 120 ∷ 99 ∷ 101 ∷ 112 ∷ 116 ∷ 105
    ∷ 111 ∷ 110 ∷ []

abbrev pub unhandled_default : Text
unhandled_default =
    85 ∷ 110 ∷ 104 ∷ 97 ∷ 110 ∷ 100 ∷ 108 ∷ 101 ∷ 100 ∷ 32 ∷ 100 ∷ 101 ∷ 102 ∷ 97 ∷ 117 ∷ 108 ∷ 116
    ∷ 32 ∷ 104 ∷ 97 ∷ 110 ∷ 100 ∷ 108 ∷ 101 ∷ 114 ∷ 32 ∷ 101 ∷ 120 ∷ 99 ∷ 101 ∷ 112 ∷ 116 ∷ 105
    ∷ 111 ∷ 110 ∷ []

-- "Unhandled HTTPS request handler exception" and "Unhandled HTTPS default handler exception".
abbrev pub unhandled_request_secure : Text
unhandled_request_secure =
    85 ∷ 110 ∷ 104 ∷ 97 ∷ 110 ∷ 100 ∷ 108 ∷ 101 ∷ 100 ∷ 32 ∷ 72 ∷ 84 ∷ 84 ∷ 80 ∷ 83 ∷ 32 ∷ 114 ∷ 101
    ∷ 113 ∷ 117 ∷ 101 ∷ 115 ∷ 116 ∷ 32 ∷ 104 ∷ 97 ∷ 110 ∷ 100 ∷ 108 ∷ 101 ∷ 114 ∷ 32 ∷ 101 ∷ 120
    ∷ 99 ∷ 101 ∷ 112 ∷ 116 ∷ 105 ∷ 111 ∷ 110 ∷ []

abbrev pub unhandled_default_secure : Text
unhandled_default_secure =
    85 ∷ 110 ∷ 104 ∷ 97 ∷ 110 ∷ 100 ∷ 108 ∷ 101 ∷ 100 ∷ 32 ∷ 72 ∷ 84 ∷ 84 ∷ 80 ∷ 83 ∷ 32 ∷ 100 ∷ 101
    ∷ 102 ∷ 97 ∷ 117 ∷ 108 ∷ 116 ∷ 32 ∷ 104 ∷ 97 ∷ 110 ∷ 100 ∷ 108 ∷ 101 ∷ 114 ∷ 32 ∷ 101 ∷ 120 ∷ 99
    ∷ 101 ∷ 112 ∷ 116 ∷ 105 ∷ 111 ∷ 110 ∷ []

abbrev pub HttpLibrary : Type 0
HttpLibrary = Library RequestHandler ErrorHandler

abbrev call_table :
    Text
    → Table RequestHandler
    → Option ErrorHandler
    → Text
    → Text
    → Option Incoming
    → Text
    → Option Outcome
call_table unhandled table on_error path method incoming last_error = elim (table path method) [
  | none ↦ none
  | some handler ↦ some (serve_request unhandled handler on_error incoming last_error)
]

-- Which function the library chooses for a request of a method: that at `resource[path][method]`, or that at
-- `default_resource[method]`.
pub data Target : Type 0 where
  resource_at : Text → Target
  default : Target

unfoldable pub call_from :
    Text → HttpLibrary → Target → Text → Option Incoming → Text → Option Outcome
call_from unhandled library (resource_at path) =
    call_table unhandled library.resource library.on_error path
call_from unhandled library default =
    call_table unhandled library.default_resource library.on_error []

abbrev pub unhandled_at : Target → Text
unhandled_at (resource_at path) = unhandled_request
unhandled_at default = unhandled_default

abbrev pub unhandled_at_secure : Target → Text
unhandled_at_secure (resource_at path) = unhandled_request_secure
unhandled_at_secure default = unhandled_default_secure

unfoldable pub call_target : HttpLibrary → Target → Text → Option Incoming → Text → Option Outcome
unfolding call_from
call_target library t = call_from (unhandled_at t) library t

unfoldable pub call_target_secure :
    HttpLibrary → Target → Text → Option Incoming → Text → Option Outcome
unfolding call_from
call_target_secure library t = call_from (unhandled_at_secure t) library t

-- The bytes that are streamed into the response.
unfoldable pub sent : Printing → List Answer → Text
sent p [] = []
sent p (a ∷ answers) = write_response p a ++ sent p answers
