-- ===== src/HttpClient/Tests.antt =====
-- The theorems on the HTTP client at concrete inputs, with a small libcurl.
use thread_component.Prelude.{ℕ, suc, ◌≡◌, refl, true, none, List, [], ◌∷◌, ◌++◌}
use thread_component.HttpClient.Headers.{Event, header_line, body_part}
use thread_component.HttpClient.Outcome.{perform-ok}
use thread_component.HttpClient.Perform.{
  Curl, Process, ensure_global_init, perform, perform_bare, perform_with_body,
}
use thread_component.HttpClient.Request.{get, post, Request, bare, with_body}
use thread_component.HttpClient.Response.{ok}
use thread_component.HttpClient.Text.{Text, trim_copy, begin_loop, end_loop, char_at, is_space}

-- " ab c  ".
abbrev padded : Text
padded = 32 ∷ 97 ∷ 98 ∷ 32 ∷ 99 ∷ 32 ∷ 32 ∷ []

-- "HTTP/1", "HTTP/2", "a: 1", "b: 2" and "B".
abbrev http_1 : Text
http_1 = 72 ∷ 84 ∷ 84 ∷ 80 ∷ 47 ∷ 49 ∷ []

abbrev http_2 : Text
http_2 = 72 ∷ 84 ∷ 84 ∷ 80 ∷ 47 ∷ 50 ∷ []

abbrev a_1 : Text
a_1 = 97 ∷ 58 ∷ 32 ∷ 49 ∷ []

abbrev b_2 : Text
b_2 = 98 ∷ 58 ∷ 32 ∷ 50 ∷ []

abbrev upper_b : Text
upper_b = 66 ∷ []

abbrev redirected : List Event
redirected = header_line http_1 ∷ header_line a_1 ∷ []

abbrev answered : List Event
answered = header_line b_2 ∷ body_part (1 ∷ 2 ∷ []) ∷ body_part (3 ∷ []) ∷ []

-- A libcurl whose transfers are redirected once and answer 200.
abbrev curl : Curl
curl = record {
  World = ℕ;
  global_init = λ w. (0, suc w);
  strerror = λ e. e ∷ [];
  easy_init = λ w. (true, w);
  easy_perform = λ opts w. (
    record {
      events = redirected ++ header_line http_2 ∷ answered;
      result = 0;
      error_buffer = [];
      response_code = 200;
      effective_url = none;
      elapsed = 7;
    },
    w,
  );
}

abbrev idle : Process curl
idle = record { init_result = none; world = 0 }

abbrev request : Request
request = record (bare get http_2 []) { content_type = a_1 }

trim_copy-run : trim_copy padded ≡ 97 ∷ 98 ∷ 32 ∷ 99 ∷ []
unfolding trim_copy begin_loop end_loop char_at is_space
trim_copy-run = refl

perform-ok_example : ok (perform curl request idle).0 ≡ true
unfolding ensure_global_init bare
perform-ok_example = perform-ok curl request idle

short_forms :
    (perform_bare curl get http_2 [] idle ≡ perform curl (bare get http_2 []) idle)
    × (perform_with_body curl post http_2 a_1 [] b_2 idle
        ≡ perform curl (with_body post http_2 a_1 [] b_2) idle)
unfolding perform_bare perform_with_body
short_forms = (refl, refl)
