-- ===== src/HttpClient/Perform.antt =====
-- cHTTPClient.cpp: `perform`, with libcurl as a parameter.
use thread_component.Prelude.{
  ℕ, Bool, Option, none, some, List, [], ◌∷◌, not, is_nil, if◌then◌else◌, ◌==◌,
}
use thread_component.HttpClient.Headers.{Event, receive_all}
use thread_component.HttpClient.Request.{Method, Request, CurlOption, options, bare, with_body}
use thread_component.HttpClient.Response.{Header, Response, ok}
use thread_component.HttpClient.Response
use thread_component.HttpClient.Text.{Text}

-- What a transfer brings: the callbacks' events in order, the result, the text in the error buffer,
-- the response code, the effective URL if there is one, and the time that it took.
pub record Transfer : Type 0 where
  pub events : List Event
  pub result : ℕ
  pub error_buffer : Text
  pub response_code : ℕ
  pub effective_url : Option Text
  pub elapsed : ℕ

-- libcurl, over a state of the process. `global_init` is called at most once.
pub record Curl : Type 1 where
  pub World : Type 0
  pub global_init : World → ℕ × World
  pub strerror : ℕ → Text
  pub easy_init : World → Bool × World
  pub easy_perform : List CurlOption → World → Transfer × World

-- "Request URL is empty" and "curl_easy_init failed".
abbrev url_is_empty : Text
url_is_empty =
    82 ∷ 101 ∷ 113 ∷ 117 ∷ 101 ∷ 115 ∷ 116 ∷ 32 ∷ 85 ∷ 82 ∷ 76 ∷ 32 ∷ 105 ∷ 115 ∷ 32 ∷ 101 ∷ 109
    ∷ 112 ∷ 116 ∷ 121 ∷ []

abbrev easy_init_failed : Text
easy_init_failed =
    99 ∷ 117 ∷ 114 ∷ 108 ∷ 95 ∷ 101 ∷ 97 ∷ 115 ∷ 121 ∷ 95 ∷ 105 ∷ 110 ∷ 105 ∷ 116 ∷ 32 ∷ 102 ∷ 97
    ∷ 105 ∷ 108 ∷ 101 ∷ 100 ∷ []

module _ (curl : Curl) where
  open curl use {World}

  -- The state of the process: `g_curlInitResult` once the flag is set, and libcurl's.
  pub record Process : Type 0 where
    pub init_result : Option ℕ
    pub world : World

  -- The result of the initialisation, which is run by the first call only.
  unfoldable pub ensure_global_init : Process → ℕ × Process
  ensure_global_init p = elim p.init_result [
    | some result ↦ (result, p)
    | none ↦
        let (result, w) = curl.global_init p.world in
        (result, record { init_result = some result; world = w })
  ]

  -- The response after a transfer.
  unfoldable pub finish_transfer : Transfer → Response
  finish_transfer t =
      let r = receive_all t.events Response.new in
      record r {
        elapsed = t.elapsed;
        curl_code = t.result;
        error_message =
            if t.result == 0
            then r.error_message
            else if is_nil t.error_buffer
            then curl.strerror t.result
            else t.error_buffer;
        status_code = t.response_code;
        effective_url = elim t.effective_url [ none ↦ r.effective_url | some url ↦ url ];
      }

  unfoldable pub fail_with : ℕ → Text → Response
  fail_with code message = record Response.new { curl_code = code; error_message = message }

  -- The codes are CURLE_URL_MALFORMAT and CURLE_FAILED_INIT.
  unfoldable pub perform : Request → Process → Response × Process
  unfolding ensure_global_init finish_transfer fail_with
  perform request p =
      let (init, p₁) = ensure_global_init p in
      let (made, w₂) = curl.easy_init p₁.world in
      let (t, w₃) = curl.easy_perform (options request) w₂ in
      if is_nil request.url
      then (fail_with 3 url_is_empty, p)
      else if not (init == 0)
      then (fail_with init (curl.strerror init), p₁)
      else if not made
      then (fail_with 2 easy_init_failed, record p₁ { world = w₂ })
      else (finish_transfer t, record p₁ { world = w₃ })

  -- `get`, `del` and `head`, and `post`, `put` and `patch`.
  unfoldable pub perform_bare : Method → Text → List Header → Process → Response × Process
  perform_bare method url headers p = perform (bare method url headers) p

  unfoldable pub perform_with_body :
      Method → Text → Text → List Header → Text → Process → Response × Process
  perform_with_body method url body headers content_type p =
      perform (with_body method url body headers content_type) p
