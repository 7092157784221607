-- ===== src/HttpServer/Answer.antt =====
-- cHTTPServer.cpp: `cResponse`, and the function that `preRun` puts around a request handler.
-- The copies of a `cResponse` share one state. Of a handler is modelled which answers it writes and
-- how it ends, and of the error handler whether there is one and whether it throws.
use thread_component.Prelude.{
  ℕ, ◌≡◌, refl, sym, ap, subst, ◌∙◌, Bool, true, false, Option, none, some, List, [], ◌∷◌, ◌++◌,
  ◌&&◌, not, if◌then◌else◌,
}
use thread_component.HttpClient.Text.{Text}

-- `st_Field`.
pub record Field : Type 0 where
  pub name : Text
  pub value : Text

-- What is passed to the writer.
pub record Answer : Type 0 where
  pub status_code : ℕ
  pub body : Text
  pub headers : List Field

-- `st_State`, with the answers that its writer was called with.
pub record ResponseState : Type 0 where
  pub responded : Bool
  pub written : List Answer

abbrev pub new : ResponseState
new = record { responded = false; written = [] }

unfoldable pub write : Answer → ResponseState → ResponseState
write a s = if s.responded then s else record { responded = true; written = s.written ++ a ∷ [] }

unfoldable pub write_all : List Answer → ResponseState → ResponseState
unfolding write
write_all [] s = s
write_all (a ∷ answers) s = write_all answers (write a s)

-- The forms of `write` without a code or without a body, and `redirect`.
abbrev pub plain : Text → Answer
plain body = record { status_code = 200; body = body; headers = [] }

abbrev pub bodiless : ℕ → List Field → Answer
bodiless status_code headers = record { status_code = status_code; body = []; headers = headers }

-- "Location".
abbrev location_name : Text
location_name = 76 ∷ 111 ∷ 99 ∷ 97 ∷ 116 ∷ 105 ∷ 111 ∷ 110 ∷ []

abbrev pub redirect : Text → ℕ → Answer
redirect location status_code =
    bodiless status_code (record { name = location_name; value = location } ∷ [])

-- The destructor of a copy; `last` tells whether `use_count` is 1.
unfoldable pub destroy : Bool → ResponseState → ResponseState
unfolding write
destroy last s = if not s.responded && last then write (bodiless 204 []) s else s

-- How a handler ends: the exception is a `std::exception` with a text, or another.
pub data Ending : Type 0 where
  returns : Ending
  throws : Text → Ending
  throws_other : Ending

-- "Content-Type" and "text/plain; charset=utf-8".
abbrev pub plain_text : Field
plain_text = record {
  name = 67 ∷ 111 ∷ 110 ∷ 116 ∷ 101 ∷ 110 ∷ 116 ∷ 45 ∷ 84 ∷ 121 ∷ 112 ∷ 101 ∷ [];
  value =
      116 ∷ 101 ∷ 120 ∷ 116 ∷ 47 ∷ 112 ∷ 108 ∷ 97 ∷ 105 ∷ 110 ∷ 59 ∷ 32 ∷ 99 ∷ 104 ∷ 97 ∷ 114 ∷ 115
      ∷ 101 ∷ 116 ∷ 61 ∷ 117 ∷ 116 ∷ 102 ∷ 45 ∷ 56 ∷ [];
}

abbrev pub failure : Text → Answer
failure message = record { status_code = 500; body = message; headers = plain_text ∷ [] }

-- What comes after the handler; `unhandled` is the text for an exception that is no `std::exception`,
-- and `reporter` is `none` where there is no error handler, and else tells
-- whether that throws, in which case the exception leaves the function.
unfoldable pub react : Text → Ending → Option Bool → ResponseState → ResponseState
unfolding write
react unhandled returns reporter s = s
react unhandled (throws what) (some true) s = s
react unhandled (throws what) _ s = write (failure what) s
react unhandled throws_other (some true) s = s
react unhandled throws_other _ s = write (failure unhandled) s

-- What `setLastError` leaves.
unfoldable pub error_after : Text → Ending → Text → Text
error_after unhandled returns last_error = last_error
error_after unhandled (throws what) last_error = what
error_after unhandled throws_other last_error = unhandled

-- A whole request, whose handler keeps no copy of the response: the response's state at its end, and
-- `lastError`. The heartbeat is left out.
unfoldable pub handle : Text → List Answer → Ending → Option Bool → Text → ResponseState × Text
unfolding write_all react destroy error_after
handle unhandled answers ending reporter last_error = (
  destroy true (react unhandled ending reporter (write_all answers new)),
  error_after unhandled ending last_error,
)

pub write-responded : (a : Answer) (s : ResponseState) → s.responded ≡ true → write a s ≡ s
unfolding write
write-responded a s h =
    subst (λ b. (if b then s else record { responded = true; written = s.written ++ a ∷ [] }) ≡ s)
      (sym h) refl

write_all-responded :
    (answers : List Answer) (s : ResponseState) → s.responded ≡ true → write_all answers s ≡ s
unfolding write_all write
write_all-responded [] s h = refl
write_all-responded (a ∷ answers) s h =
    ap (write_all answers) (write-responded a s h) ∙ write_all-responded answers s h

react-first :
    (unhandled : Text) (a : Answer) (ending : Ending) (reporter : Option Bool)
    → (destroy true
        (react unhandled ending reporter (record { responded = true; written = a ∷ [] }))).written
      ≡ a ∷ []
unfolding react destroy write
react-first unhandled a returns reporter = refl
react-first unhandled a (throws what) none = refl
react-first unhandled a (throws what) (some true) = refl
react-first unhandled a (throws what) (some false) = refl
react-first unhandled a throws_other none = refl
react-first unhandled a throws_other (some true) = refl
react-first unhandled a throws_other (some false) = refl

-- The one answer to a request.
unfoldable pub answer_of : Text → List Answer → Ending → Option Bool → Answer
answer_of unhandled (a ∷ answers) ending reporter = a
answer_of unhandled [] returns reporter = bodiless 204 []
answer_of unhandled [] (throws what) (some true) = bodiless 204 []
answer_of unhandled [] (throws what) _ = failure what
answer_of unhandled [] throws_other (some true) = bodiless 204 []
answer_of unhandled [] throws_other _ = failure unhandled

-- A request whose handler keeps no copy of the response is answered exactly once, whatever the
-- handler does: by the first answer that it writes; else, where it throws and the error handler
-- does not, by a 500 with the exception's text (or that of the route, where it has none); and else by a
-- 204 without a body.
pub handle-answer :
    (unhandled : Text) (answers : List Answer) (ending : Ending) (reporter : Option Bool)
    (last_error : Text)
    → (handle unhandled answers ending reporter last_error).0.written
      ≡ answer_of unhandled answers ending reporter ∷ []
unfolding handle react destroy write_all write answer_of
handle-answer unhandled [] returns reporter last_error = refl
handle-answer unhandled [] (throws what) none last_error = refl
handle-answer unhandled [] (throws what) (some true) last_error = refl
handle-answer unhandled [] (throws what) (some false) last_error = refl
handle-answer unhandled [] throws_other none last_error = refl
handle-answer unhandled [] throws_other (some true) last_error = refl
handle-answer unhandled [] throws_other (some false) last_error = refl
handle-answer unhandled (a ∷ answers) ending reporter last_error =
    rw (write_all-responded answers (record { responded = true; written = a ∷ [] }) refl)
      (react-first unhandled a ending reporter)
