-- ===== src/HttpServer/FetchedTests.antt =====
-- The theorem on a response that the client receives, at a concrete input.
use thread_component.Prelude.{◌≡◌, ◌++◌, refl, false, [], ◌∷◌, suc, length, List, subst, sym}
use thread_component.HttpClient.Headers
use thread_component.HttpClient.Headers.{Event, body_of, gather, receive_all}
use thread_component.HttpClient.Response
use thread_component.HttpServer.Answer.{Answer}
use thread_component.HttpServer.Response.{make_status_line, write_response}
use thread_component.HttpServer.Framing.{head_lines, read_head-write_response}
use thread_component.HttpServer.Reader.{read_head, AreLines}
use thread_component.HttpServer.Lines.{has_colon, is_token}
use thread_component.HttpServer.Seen.{AreTokens, events_for, seen_all, length_seen}
use thread_component.HttpServer.Fetched.{Delivers, receive_all-write_response}
use thread_component.HttpServer.Samples.{get, root, printing, printing-PrintsLines}

abbrev sample : Answer
sample = record {
  status_code = 200;
  body = 13 ∷ 10 ∷ [];
  headers = record { name = get; value = root } ∷ record { name = []; value = get } ∷ [];
}

sample-AreLines : AreLines sample.headers
sample-AreLines = (((refl, (refl, (refl, tt))), (refl, tt)), ((tt, (refl, (refl, (refl, tt)))), tt))

sample-AreTokens : AreTokens sample.headers
unfolding is_token
sample-AreTokens = (refl, (refl, tt))

sample-has_colon : has_colon (make_status_line printing sample.status_code) ≡ false
unfolding has_colon make_status_line
sample-has_colon = refl

-- A redirect came before.
abbrev redirected : List Event
redirected = Headers.header_line root ∷ []

-- All of the body is one part.
abbrev called_back : List Event
called_back = events_for (head_lines printing sample) (sample.body ∷ [])

called_back-Delivers :
    Delivers called_back
      (read_head (suc (length (head_lines printing sample))) (write_response printing sample))
called_back-Delivers =
    subst (Delivers called_back)
      (sym (read_head-write_response printing sample printing-PrintsLines sample-AreLines))
      (sample.body ∷ [], refl, refl)

receive_all-write_response_example :
    let r = receive_all (redirected ++ called_back) Response.new in
    (r.headers ≡ seen_all sample.headers ++ length_seen printing sample)
    × (r.body ≡ Response.new.body ++ (gather body_of redirected ++ sample.body))
receive_all-write_response_example =
    receive_all-write_response printing sample redirected called_back Response.new
      printing-PrintsLines sample-AreLines sample-AreTokens sample-has_colon called_back-Delivers
