-- ===== src/HttpServer/Seen.antt =====
-- cHTTPServer.cpp and cHTTPClient.cpp: the header lines of a response, as the client reads them.
use thread_component.Prelude.{
  ◌≡◌, refl, Bool, true, false, List, [], ◌∷◌, ◌++◌, is_nil, length, if◌then◌else◌,
}
use thread_component.HttpClient.Text.{Text}
use thread_component.HttpClient.Headers
use thread_component.HttpClient.Headers.{
  Event, body_part, receive_all, header_of, line_of, body_of, gather, starts, some_starts,
  receive_all-last,
}
use thread_component.HttpClient.Response.{Header}
use thread_component.HttpServer.Answer.{Field, Answer}
use thread_component.HttpServer.Response.{Printing, header_line, crlf, has_header, content_length}
use thread_component.HttpServer.Reader.{lines_of}
use thread_component.HttpServer.Framing.{length_lines}
use thread_component.HttpServer.Lines.{
  is_token, seen, parse_header-header_line, starts_response-header_line,
}

abbrev pub line_events : List Text → List Event
line_events [] = []
line_events (line ∷ lines) = Headers.header_line (line ++ crlf) ∷ line_events lines

abbrev pub part_events : List Text → List Event
part_events [] = []
part_events (part ∷ parts) = body_part part ∷ part_events parts

abbrev pub joined : List Text → Text
joined [] = []
joined (part ∷ parts) = part ++ joined parts

abbrev pub events_for : List Text → List Text → List Event
events_for lines parts = line_events lines ++ Headers.header_line crlf ∷ part_events parts

-- The headers that the client has of fields.
abbrev pub seen_all : List Field → List Header
seen_all [] = []
seen_all (f ∷ fields) =
    let rest = seen_all fields in if is_nil f.name then rest else seen f.name f.value ∷ rest

abbrev pub length_seen : Printing → Answer → List Header
length_seen p a =
    if has_header a.headers content_length
    then []
    else seen content_length (p.to_string (length a.body)) ∷ []

abbrev pub AreTokens : List Field → Type 0
AreTokens [] = Unit
AreTokens (f ∷ fields) = (is_token f.name ≡ true) × AreTokens fields

-- What is read of lines that start no response: their headers.
abbrev pub AreRead : List Text → List Header → Type 0
AreRead lines headers =
    (some_starts (line_events lines) ≡ false) × (gather header_of (line_events lines) ≡ headers)

AreRead-cons :
    (name value : Text) (lines : List Text) (headers : List Header)
    → is_token name ≡ true
    → AreRead lines headers
    → AreRead (header_line name value ∷ lines) (seen name value ∷ headers)
unfolding some_starts gather starts header_of
AreRead-cons name value lines headers h (none', read) = (
  rw (starts_response-header_line name value h) none',
  rw (parse_header-header_line name value h, read) refl,
)

pub AreRead-lines_of :
    (fields : List Field) (lines : List Text) (headers : List Header)
    → AreTokens fields
    → AreRead lines headers
    → AreRead (lines_of fields ++ lines) (seen_all fields ++ headers)
AreRead-lines_of [] lines headers h k = k
AreRead-lines_of (f ∷ fields) lines headers (t, h) k =
    by_name (is_nil f.name) (AreRead-lines_of fields lines headers h k)
  where
    by_name :
        (b : Bool)
        → AreRead (lines_of fields ++ lines) (seen_all fields ++ headers)
        → AreRead
            ((if b then lines_of fields else header_line f.name f.value ∷ lines_of fields) ++ lines)
            ((if b then seen_all fields else seen f.name f.value ∷ seen_all fields) ++ headers)
    by_name true k = k
    by_name false k =
        AreRead-cons f.name f.value (lines_of fields ++ lines) (seen_all fields ++ headers) t k

pub AreRead-length : (p : Printing) (a : Answer) → AreRead (length_lines p a) (length_seen p a)
AreRead-length p a = by_header (has_header a.headers content_length)
  where
    digits : Text
    digits = p.to_string (length a.body)

    by_header :
        (b : Bool)
        → AreRead
            (if b then [] else header_line content_length digits ∷ [])
            (if b then [] else seen content_length digits ∷ [])
    by_header true = unfold some_starts in unfold gather in (refl, refl)
    by_header false =
        AreRead-cons content_length digits [] [] (unfold is_token in refl)
          (unfold some_starts in unfold gather in (refl, refl))
