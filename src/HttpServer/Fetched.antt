-- ===== src/HttpServer/Fetched.antt =====
-- cHTTPServer.cpp and cHTTPClient.cpp: what the client has of a response that the server wrote.
-- libcurl stands between them; what it calls back with is an argument, which satisfies `Delivers`.
use thread_component.Prelude.{
  subst, suc, ◌≡◌, refl, sym, ap, ◌∙◌, false, Option, none, some, List, [], ◌∷◌, ◌++◌, arith,
  length, append-nil, append_assoc,
}
use thread_component.HttpClient.Text.{Text, split_colon}
use thread_component.HttpClient.Headers
use thread_component.HttpClient.Headers.{
  Event, body_part, receive_all, header_of, line_of, body_of, gather, starts, some_starts,
  receive_all-last,
}
use thread_component.HttpClient.Response.{Header, Response, starts_response, parse_header}
use thread_component.HttpServer.Answer.{Answer}
use thread_component.HttpServer.Response.{Printing, crlf, make_status_line, version, write_response}
use thread_component.HttpServer.Reader.{read_head, lines_of, AreLines}
use thread_component.HttpServer.Framing.{
  head_lines, length_lines, PrintsLines, read_head-write_response,
}
use thread_component.HttpServer.Lines.{has_colon, starts_response-version, parse_header-version}
use thread_component.HttpServer.Seen.{
  line_events, part_events, joined, events_for, seen_all, length_seen, AreTokens, AreRead,
  AreRead-lines_of, AreRead-length,
}

-- What libcurl documents of its callbacks for one response, of this head and body.
abbrev pub Delivers : List Event → Option (List Text × Text) → Type 0
Delivers events none = ⊥
Delivers events (some (lines, body)) =
    (parts : List Text) × (joined parts ≡ body) × (events ≡ events_for lines parts)

gather-append :
    {A : Type 0} (f : Event → List A) (xs ys : List Event)
    → gather f (xs ++ ys) ≡ gather f xs ++ gather f ys
unfolding gather
gather-append f [] ys = refl
gather-append f (x ∷ xs) ys =
    ap (λ t. f x ++ t) (gather-append f xs ys)
    ∙ sym (append_assoc (f x) (gather f xs) (gather f ys))

some_starts-append :
    (xs ys : List Event)
    → some_starts xs ≡ false
    → some_starts ys ≡ false
    → some_starts (xs ++ ys) ≡ false
unfolding some_starts
some_starts-append [] ys h k = k
some_starts-append (x ∷ xs) ys h k = ground (arith, some_starts-append xs ys (ground arith) k)

-- The body's parts hold no header.
part_events-read :
    (parts : List Text)
    → (some_starts (part_events parts) ≡ false)
      × (gather header_of (part_events parts) ≡ [])
      × (gather body_of (part_events parts) ≡ joined parts)
unfolding some_starts starts gather header_of body_of
part_events-read [] = (refl, refl, refl)
part_events-read (part ∷ parts) =
    let (a, b, c) = part_events-read parts in (a, b, ap (λ t. part ++ t) c)

line_events-body : (lines : List Text) → gather body_of (line_events lines) ≡ []
unfolding gather body_of
line_events-body [] = refl
line_events-body (line ∷ lines) = line_events-body lines

-- The empty line and the body.
ending-read :
    (parts : List Text)
    → let events = Headers.header_line crlf ∷ part_events parts in
      (some_starts events ≡ false)
      × (gather header_of events ≡ [])
      × (gather body_of events ≡ joined parts)
unfolding some_starts starts starts_response gather header_of parse_header body_of split_colon
ending-read parts = part_events-read parts

-- The events of a head after its status line, and of a body.
events_for-read :
    (lines : List Text) (headers : List Header) (parts : List Text)
    → AreRead lines headers
    → (some_starts (events_for lines parts) ≡ false)
      × (gather header_of (events_for lines parts) ≡ headers)
      × (gather body_of (events_for lines parts) ≡ joined parts)
events_for-read lines headers parts (none', read) =
    let ending = Headers.header_line crlf ∷ part_events parts in
    let (a, b, c) = ending-read parts in
    (
      some_starts-append (line_events lines) ending none' a,
      gather-append header_of (line_events lines) ending
          ∙ ap (λ t. gather header_of (line_events lines) ++ t) b
          ∙ append-nil (gather header_of (line_events lines))
          ∙ read,
      gather-append body_of (line_events lines) ending
          ∙ ap (λ t. t ++ gather body_of ending) (line_events-body lines)
          ∙ c,
    )

receive-head :
    (before : List Event) (status : Text) (lines : List Text) (headers : List Header)
    (parts : List Text) (r : Response)
    → has_colon status ≡ false
    → AreRead lines headers
    → let r' =
        receive_all
          (before ++ Headers.header_line ((version ++ status) ++ crlf) ∷ events_for lines parts)
          r in
      (r'.headers ≡ headers) × (r'.body ≡ r.body ++ (gather body_of before ++ joined parts))
unfolding gather header_of body_of
receive-head before status lines headers parts r h k =
    let line = (version ++ status) ++ crlf in
    let later = events_for lines parts in
    let (none', read, body) = events_for-read lines headers parts k in
    let (got, _, whole) =
      receive_all-last before line later r (starts_response-version status) none' in
    (
      got ∙ ap (λ t. t ++ gather header_of later) (parse_header-version status h) ∙ read,
      whole
          ∙ ap (λ t. r.body ++ t)
              (gather-append body_of before (Headers.header_line line ∷ later)
                ∙ ap (λ t. gather body_of before ++ t) body),
    )

-- A response that the server writes, received by the client: it then has the headers that the server
-- was given, in order and without those that have no name, their names and values trimmed, and one
-- with the length of the body where none was named Content-Length; none of an earlier response; and
-- all of the body, after the bodies of what came before. Conditions: libcurl calls back with each
-- line of the head and the empty one, and then with parts that make up the body; no header has a
-- carriage return; no name of one has a colon or a slash; and the texts of the status and of the
-- length have no carriage return, the status no colon.
pub receive_all-write_response :
    (p : Printing) (a : Answer) (before events : List Event) (r : Response)
    → PrintsLines p
    → AreLines a.headers
    → AreTokens a.headers
    → has_colon (make_status_line p a.status_code) ≡ false
    → Delivers events (read_head (suc (length (head_lines p a))) (write_response p a))
    → let r' = receive_all (before ++ events) r in
      (r'.headers ≡ seen_all a.headers ++ length_seen p a)
      × (r'.body ≡ r.body ++ (gather body_of before ++ a.body))
receive_all-write_response p a before events r prints lines tokens plain delivery =
    let status = make_status_line p a.status_code in
    let read =
      AreRead-lines_of a.headers (length_lines p a) (length_seen p a) tokens (AreRead-length p a) in
    let (parts, whole, e) =
      subst (Delivers events) (read_head-write_response p a prints lines) delivery in
    let (headers, body) =
      receive-head before status (lines_of a.headers ++ length_lines p a)
        (seen_all a.headers ++ length_seen p a) parts r plain read in
    let split = ap (λ es. receive_all (before ++ es) r) e in
    (
      ap (λ q. q.headers) split ∙ headers,
      ap (λ q. q.body) split ∙ body ∙ ap (λ t. r.body ++ (gather body_of before ++ t)) whole,
    )
