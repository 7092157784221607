-- ===== src/HttpServer/Answered.antt =====
-- cHTTPServer.cpp: a request, from the function that the library calls to the bytes of its response.
use thread_component.Prelude.{
  suc, ◌≡◌, refl, ap, ◌∙◌, Bool, true, false, Option, none, some, List, [], ◌∷◌, length, ◌==◌,
  if◌then◌else◌, arith, append-nil,
}
use thread_component.HttpClient.Text.{Text}
use thread_component.HttpServer.Answer.{
  plain_text, Answer, Ending, returns, throws, throws_other, failure, answer_of, handle-answer,
}
use thread_component.HttpServer.Snapshot.{Incoming, Request, make_request_snapshot}
use thread_component.HttpServer.Requests.{
  RequestHandler, ErrorHandler, thrown, reporter_of, call_of, finish_request, serve_request, sent,
}
use thread_component.HttpServer.Response.{Printing, write_response}
use thread_component.HttpServer.Reader.{IsLine, AreLines, read_head}
use thread_component.HttpServer.Framing.{head_lines, PrintsLines, read_head-write_response}

-- Whether there is an error handler for what the handler throws, and whether it throws itself.
unfoldable pub reaction : Text → Option ErrorHandler → Request → Ending → Option Bool
unfolding thrown reporter_of
reaction unhandled on_error r ending = elim (thrown unhandled ending) [
  | none ↦ none
  | some what ↦ reporter_of on_error (call_of r what)
]

-- The one answer to a request.
unfoldable pub reply : Text → RequestHandler → Option ErrorHandler → Option Incoming → Answer
unfolding make_request_snapshot reaction answer_of
reply unhandled handler on_error incoming =
    let r = make_request_snapshot incoming in
    let (answers, ending) = handler r in
    answer_of unhandled answers ending (reaction unhandled on_error r ending)

finish_request-written :
    (unhandled : Text) (on_error : Option ErrorHandler) (r : Request) (answers : List Answer)
    (ending : Ending) (last_error : Text)
    → (finish_request unhandled on_error r answers ending last_error).written
      ≡ answer_of unhandled answers ending (reaction unhandled on_error r ending) ∷ []
unfolding finish_request reaction thrown
finish_request-written unhandled on_error r answers returns last_error =
    handle-answer unhandled answers returns none last_error
finish_request-written unhandled on_error r answers (throws what) last_error =
    handle-answer unhandled answers (throws what) (reporter_of on_error (call_of r what)) last_error
finish_request-written unhandled on_error r answers throws_other last_error =
    handle-answer unhandled answers throws_other (reporter_of on_error (call_of r unhandled))
      last_error

pub serve_request-written :
    (unhandled : Text) (handler : RequestHandler) (on_error : Option ErrorHandler)
    (incoming : Option Incoming) (last_error : Text)
    → (serve_request unhandled handler on_error incoming last_error).written
      ≡ reply unhandled handler on_error incoming ∷ []
unfolding serve_request reply
serve_request-written unhandled handler on_error incoming last_error =
    let r = make_request_snapshot incoming in
    finish_request-written unhandled on_error r (handler r).0 (handler r).1 last_error

is_line : Text → Bool
is_line [] = true
is_line (c ∷ xs) = let rest = is_line xs in if c == 13 then false else rest

is_line-IsLine : (xs : Text) → is_line xs ≡ true → IsLine xs
unfolding is_line
is_line-IsLine [] h = tt
is_line-IsLine (c ∷ xs) h = (ground arith, is_line-IsLine xs (ground arith))

-- The headers of every answer stay on their lines.
abbrev pub HaveLines : List Answer → Type 0
HaveLines [] = Unit
HaveLines (a ∷ answers) = AreLines a.headers × HaveLines answers

failure-AreLines : (message : Text) → AreLines (failure message).headers
unfolding is_line
failure-AreLines message =
    ((is_line-IsLine plain_text.name refl, is_line-IsLine plain_text.value refl), tt)

answer_of-AreLines :
    (unhandled : Text) (answers : List Answer) (ending : Ending) (reporter : Option Bool)
    → HaveLines answers
    → AreLines (answer_of unhandled answers ending reporter).headers
unfolding answer_of
answer_of-AreLines unhandled (a ∷ answers) ending reporter (h, _) = h
answer_of-AreLines unhandled [] returns reporter h = tt
answer_of-AreLines unhandled [] (throws what) none h = failure-AreLines what
answer_of-AreLines unhandled [] (throws what) (some true) h = tt
answer_of-AreLines unhandled [] (throws what) (some false) h = failure-AreLines what
answer_of-AreLines unhandled [] throws_other none h = failure-AreLines unhandled
answer_of-AreLines unhandled [] throws_other (some true) h = tt
answer_of-AreLines unhandled [] throws_other (some false) h = failure-AreLines unhandled

-- What a client reads from the bytes that a request was answered with.
abbrev pub read_answer : Printing → Answer → List Answer → Option (List Text × Text)
read_answer p a answers = read_head (suc (length (head_lines p a))) (sent p answers)

-- Whatever the handler of a route does, the bytes of the response are read as its one answer.
pub serve_request-read :
    (p : Printing) (unhandled : Text) (handler : RequestHandler) (on_error : Option ErrorHandler)
    (incoming : Option Incoming) (last_error : Text)
    → PrintsLines p
    → HaveLines (handler (make_request_snapshot incoming)).0
    → let a = reply unhandled handler on_error incoming in
      read_answer p a (serve_request unhandled handler on_error incoming last_error).written
      ≡ some (head_lines p a, a.body)
unfolding reply sent
serve_request-read p unhandled handler on_error incoming last_error h k =
    let r = make_request_snapshot incoming in
    let a = reply unhandled handler on_error incoming in
    ap (read_answer p a) (serve_request-written unhandled handler on_error incoming last_error)
    ∙ ap (read_head (suc (length (head_lines p a)))) (append-nil (write_response p a))
    ∙ read_head-write_response p a h (
        answer_of-AreLines unhandled (handler r).0 (handler r).1
          (reaction unhandled on_error r (handler r).1) k)
