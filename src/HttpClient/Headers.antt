-- ===== src/HttpClient/Headers.antt =====
-- cHTTPClient.cpp: what the headers of a response are after a transfer.
use thread_component.Prelude.{
  ◌≡◌, refl, sym, ap, ◌∙◌, inl, inr, Bool, true, false, List, [], ◌∷◌, ◌++◌, append-nil,
  append_assoc, arith, if◌then◌else◌, Bool-cases,
}
use thread_component.HttpClient.Response.{
  Header, Response, starts_response, parse_header, write_header, write_body, has_header,
  header_loop, header_value,
}
use thread_component.HttpClient.Text.{Text, iequals}
use thread_component.HttpClient.Trim.{iequals_iff}

-- What libcurl calls back with.
pub data Event : Type 0 where
  header_line : Text → Event
  body_part : Text → Event

unfoldable pub receive : Event → Response → Response
unfolding write_header write_body
receive (header_line line) r = write_header line r
receive (body_part text) r = write_body text r

unfoldable pub receive_all : List Event → Response → Response
unfolding receive
receive_all [] r = r
receive_all (e ∷ events) r = receive_all events (receive e r)

-- The header lines and the parts of the body among the events, put together.
unfoldable pub line_of : Event → Text
line_of (header_line line) = line
line_of (body_part text) = []

unfoldable pub header_of : Event → List Header
unfolding parse_header
header_of (header_line line) = parse_header line
header_of (body_part text) = []

unfoldable pub body_of : Event → Text
body_of (header_line line) = []
body_of (body_part text) = text

unfoldable pub gather : {A : Type 0} → (Event → List A) → List Event → List A
gather f [] = []
gather f (e ∷ events) = f e ++ gather f events

-- Whether a new response starts.
unfoldable pub starts : Event → Bool
starts (header_line line) = starts_response line
starts (body_part text) = false

unfoldable pub some_starts : List Event → Bool
some_starts [] = false
some_starts (e ∷ events) = if starts e then true else some_starts events

receive-event :
    (e : Event) (r : Response)
    → let r' = receive e r in
      (r'.headers ≡ (if starts e then [] else r.headers) ++ header_of e)
      × (r'.raw_headers ≡ (if starts e then [] else r.raw_headers) ++ line_of e)
      × (r'.body ≡ r.body ++ body_of e)
unfolding receive write_header write_body starts header_of line_of body_of
receive-event (body_part text) r =
    (sym (append-nil r.headers), sym (append-nil r.raw_headers), refl)
receive-event (header_line line) r = elim (Bool-cases (starts_response line)) [
  | inl new' ↦ rw new' (refl, refl, sym (append-nil r.body))
  | inr same ↦ rw same (refl, refl, sym (append-nil r.body))
]

receive_all-cons :
    (e : Event) (events : List Event) (r : Response)
    → receive_all (e ∷ events) r ≡ receive_all events (receive e r)
unfolding receive_all
receive_all-cons e events r = refl

receive_all-append :
    (xs ys : List Event) (r : Response)
    → receive_all (xs ++ ys) r ≡ receive_all ys (receive_all xs r)
unfolding receive_all
receive_all-append [] ys r = refl
receive_all-append (e ∷ xs) ys r = receive_all-append xs ys (receive e r)

receive_all-body :
    (events : List Event) (r : Response)
    → (receive_all events r).body ≡ r.body ++ gather body_of events
unfolding receive_all gather
receive_all-body [] r = sym (append-nil r.body)
receive_all-body (e ∷ events) r =
    receive_all-body events (receive e r)
    ∙ ap (λ t. t ++ gather body_of events) (receive-event e r).2
    ∙ append_assoc r.body (body_of e) (gather body_of events)

receive-later :
    (events : List Event) (r : Response)
    → some_starts events ≡ false
    → ((receive_all events r).headers ≡ r.headers ++ gather header_of events)
      × ((receive_all events r).raw_headers ≡ r.raw_headers ++ gather line_of events)
unfolding receive_all some_starts gather
receive-later [] r h = (sym (append-nil r.headers), sym (append-nil r.raw_headers))
receive-later (e ∷ events) r h =
    let same : starts e ≡ false = ground arith in
    let ih = receive-later events (receive e r) (ground arith) in
    let one = receive-event e r in
    (
      ih.0
          ∙ ap (λ t. t ++ gather header_of events) (one.0 ∙ rw same refl)
          ∙ append_assoc r.headers (header_of e) (gather header_of events),
      ih.1
          ∙ ap (λ t. t ++ gather line_of events) (one.1 ∙ rw same refl)
          ∙ append_assoc r.raw_headers (line_of e) (gather line_of events),
    )

-- After a transfer whose last response starts at `line`, the response holds the headers and the raw
-- header lines from that line on, in order, and none of an earlier response, which a redirect or an
-- interim answer leaves; its body is all parts of the body in order.
pub receive_all-last :
    (before : List Event) (line : Text) (later : List Event) (r : Response)
    → starts_response line ≡ true
    → some_starts later ≡ false
    → let events = before ++ header_line line ∷ later in
      let r' = receive_all events r in
      (r'.headers ≡ gather header_of (header_line line ∷ later))
      × (r'.raw_headers ≡ gather line_of (header_line line ∷ later))
      × (r'.body ≡ r.body ++ gather body_of events)
unfolding gather
receive_all-last before line later r first none' =
    let r₀ = receive_all before r in
    let one = receive-event (header_line line) r₀ in
    let new' : starts (header_line line) ≡ true = unfold starts in first in
    let rest = receive-later later (receive (header_line line) r₀) none' in
    let split =
      receive_all-append before (header_line line ∷ later) r
      ∙ receive_all-cons (header_line line) later r₀ in
    (
      ap (λ (q : Response). q.headers) split
          ∙ rest.0
          ∙ ap (λ t. t ++ gather header_of later) (one.0 ∙ rw new' refl),
      ap (λ (q : Response). q.raw_headers) split
          ∙ rest.1
          ∙ ap (λ t. t ++ gather line_of later) (one.1 ∙ rw new' refl),
      receive_all-body (before ++ header_line line ∷ later) r,
    )

iequals-same : (text lhs rhs : Text) → iequals lhs rhs ≡ true → iequals text lhs ≡ iequals text rhs
iequals-same text lhs rhs h =
    let e = (iequals_iff lhs rhs).0 h in
    elim (Bool-cases (iequals text lhs)) [
      | inl yes' ↦ yes' ∙ sym ((iequals_iff text rhs).1 ((iequals_iff text lhs).0 yes' ∙ e))
      | inr no' ↦ elim (Bool-cases (iequals text rhs)) [
        | inl yes' ↦
            let back = (iequals_iff text lhs).1 ((iequals_iff text rhs).0 yes' ∙ sym e) in cc
        | inr no'' ↦ no' ∙ sym no''
      ]
    ]

header_loop-same :
    (headers : List Header) (lhs rhs : Text)
    → iequals lhs rhs ≡ true
    → (header_loop headers lhs ≡ header_loop headers rhs)
      × (has_header headers lhs ≡ has_header headers rhs)
unfolding header_loop has_header
header_loop-same [] lhs rhs h = (refl, refl)
header_loop-same (x ∷ headers) lhs rhs h =
    let ih = header_loop-same headers lhs rhs h in
    rw (iequals-same x.name lhs rhs h, ih.0, ih.1) (refl, refl)

-- `headerValue` and `hasHeader` do not see the case of the name that is asked for.
pub header_value-same :
    (r : Response) (lhs rhs : Text)
    → iequals lhs rhs ≡ true
    → (header_value lhs r ≡ header_value rhs r)
      × (has_header r.headers lhs ≡ has_header r.headers rhs)
unfolding header_value
header_value-same r lhs rhs h = header_loop-same r.headers lhs rhs h
