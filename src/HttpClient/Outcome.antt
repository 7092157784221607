-- ===== src/HttpClient/Outcome.antt =====
-- cHTTPClient.cpp: what `perform` sends and what it answers.
use thread_component.Prelude.{
  ℕ, ◌≡◌, ◌≢◌, refl, sym, ap, append-nil, append_assoc, ◌∙◌, inl, inr, true, false, List, [], ◌∷◌,
  ◌++◌, ◌&&◌, ◌||◌, not, is_nil, arith, ◌==◌, ltb, leb, Bool-cases,
}
use thread_component.HttpClient.Headers.{Event, header_line, body_part, receive, receive_all}
use thread_component.HttpClient.Perform.{
  Curl, Process, ensure_global_init, finish_transfer, fail_with, perform,
}
use thread_component.HttpClient.Request.{
  Request, options, request_headers, add_default, content_type_name, accept_name,
}
use thread_component.HttpClient.Response.{
  Header, Response, new, ok, has_header, write_header, write_body,
}
use thread_component.HttpClient.Text.{Text, iequals, iequals_loop, to_lower}

has_header-append :
    (headers : List Header) (h : Header) (name : Text)
    → has_header (headers ++ h ∷ []) name ≡ (has_header headers name || iequals h.name name)
unfolding has_header
has_header-append [] h name = ground arith
has_header-append (x ∷ headers) h name = ground (arith, has_header-append headers h name)

-- Whether the request has a header of this name.
add_default-has :
    (name value other : Text) (headers : List Header)
    → has_header (add_default name value headers) other ≡ (
        has_header headers other
        || (not (is_nil value) && not (has_header headers name) && iequals name other))
unfolding add_default
add_default-has name value other headers =
    ground (arith, has_header-append headers (record { name = name; value = value }) other)

add_default-prefix :
    (name value : Text) (headers : List Header)
    → (added : List Header) × (add_default name value headers ≡ headers ++ added)
unfolding add_default
add_default-prefix name value headers =
    elim (Bool-cases (not (is_nil value) && not (has_header headers name))) [
      | inl new' ↦ rw new' (record { name = name; value = value } ∷ [], refl)
      | inr old ↦ rw old ([], sym (append-nil headers))
    ]

names-differ :
    (iequals content_type_name content_type_name ≡ true)
    × (iequals content_type_name accept_name ≡ false)
    × (iequals accept_name content_type_name ≡ false)
    × (iequals accept_name accept_name ≡ true)
unfolding iequals iequals_loop to_lower
names-differ = (refl, refl, refl, refl)

-- The request that goes out begins with the caller's headers as they are. It has a content type
-- exactly if the caller gave one, as a header in any case of letters or as a field, and likewise for
-- `Accept`.
pub request_headers-has :
    (r : Request)
    → let sent = request_headers r in
      (has_header sent content_type_name
        ≡ (has_header r.headers content_type_name || not (is_nil r.content_type)))
      × (has_header sent accept_name ≡ (has_header r.headers accept_name || not (is_nil r.accept)))
      × ((added : List Header) × (sent ≡ r.headers ++ added))
unfolding request_headers
request_headers-has r =
    let typed = add_default content_type_name r.content_type r.headers in
    let (cc', ca, ac, aa) = names-differ in
    let one = add_default-prefix content_type_name r.content_type r.headers in
    let two = add_default-prefix accept_name r.accept typed in
    (
      add_default-has accept_name r.accept content_type_name typed
          ∙ rw
              (
                add_default-has content_type_name r.content_type content_type_name r.headers,
                cc',
                ac,
              )
              (ground arith),
      add_default-has accept_name r.accept accept_name typed
          ∙ rw (add_default-has content_type_name r.content_type accept_name r.headers, ca, aa)
              (ground arith),
      (one.0 ++ two.0, two.1 ∙ ap (λ l. l ++ two.0) one.1 ∙ append_assoc r.headers one.0 two.0),
    )

receive_all-error :
    (events : List Event) (r : Response) → (receive_all events r).error_message ≡ r.error_message
unfolding receive_all receive write_header write_body
receive_all-error [] r = refl
receive_all-error (header_line line ∷ events) r =
    receive_all-error events (write_header line r) ∙ ground arith
receive_all-error (body_part text ∷ events) r = receive_all-error events (write_body text r)

module _ (curl : Curl) where
  has_text :
      ((e : ℕ) → e ≢ 0 → is_nil (curl.strerror e) ≡ false)
      → (e : ℕ) → (not (is_nil (curl.strerror e)) || e == 0) ≡ true
  has_text texts e = elim (Bool-cases (e == 0)) [
    | inl zero' ↦ ground arith
    | inr other ↦ let text = texts e (λ z. ground arith) in ground arith
  ]

  -- `perform` answers a response that is `ok` exactly if there is a URL, libcurl could be
  -- initialised, a handle could be made, the transfer succeeded, and its code is from 200 to 299.
  pub perform-ok :
      (r : Request) (p : Process curl)
      → let (init, p₁) = ensure_global_init curl p in
        let (made, w₂) = curl.easy_init p₁.world in
        let t = (curl.easy_perform (options r) w₂).0 in
        ok (perform curl r p).0 ≡ (
          not (is_nil r.url)
          && init == 0
          && made
          && t.result == 0
          && leb 200 t.response_code
          && ltb t.response_code 300)
  unfolding ok perform finish_transfer fail_with
  perform-ok r p = ground arith

  -- Where libcurl has a text for every error, a response of `perform` has an error message exactly
  -- if its `curlCode` tells of an error.
  pub perform_error_message :
      ((e : ℕ) → e ≢ 0 → is_nil (curl.strerror e) ≡ false)
      → (r : Request) (p : Process curl)
      → is_nil (perform curl r p).0.error_message ≡ ((perform curl r p).0.curl_code == 0)
  unfolding perform finish_transfer fail_with
  perform_error_message texts r p =
      let (init, p₁) = ensure_global_init curl p in
      let (made, w₂) = curl.easy_init p₁.world in
      let t = (curl.easy_perform (options r) w₂).0 in
      ground (arith, has_text texts init, has_text texts t.result, receive_all-error t.events new)
