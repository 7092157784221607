-- ===== src/HttpServer/Response.antt =====
-- cHTTPServer.cpp: the bytes of a response.
use thread_component.Prelude.{
  ℕ, Bool, true, false, List, [], ◌∷◌, ◌++◌, is_nil, length, if◌then◌else◌,
}
use thread_component.HttpClient.Text.{Text, iequals}
use thread_component.HttpServer.Answer.{Field, Answer}

-- "HTTP/1.1 ", ": ", "Content-Length" and the end of a line.
abbrev pub version : Text
version = 72 ∷ 84 ∷ 84 ∷ 80 ∷ 47 ∷ 49 ∷ 46 ∷ 49 ∷ 32 ∷ []

abbrev pub separator : Text
separator = 58 ∷ 32 ∷ []

abbrev pub content_length : Text
content_length = 67 ∷ 111 ∷ 110 ∷ 116 ∷ 101 ∷ 110 ∷ 116 ∷ 45 ∷ 76 ∷ 101 ∷ 110 ∷ 103 ∷ 116 ∷ 104 ∷ []

abbrev pub crlf : Text
crlf = 13 ∷ 10 ∷ []

unfoldable pub has_header : List Field → Text → Bool
has_header [] name = false
has_header (h ∷ headers) name =
    let rest = has_header headers name in if iequals h.name name then true else rest

-- What the source calls: `SimpleWeb::status_code`, whose text is empty for a code that it does not
-- know, and `std::to_string`.
pub record Printing : Type 0 where
  pub status_text : ℕ → Text
  pub to_string : ℕ → Text

unfoldable pub make_status_line : Printing → ℕ → Text
make_status_line p code =
    if is_nil (p.status_text code) then p.to_string code else p.status_text code

unfoldable pub header_line : Text → Text → Text
header_line name value = name ++ (separator ++ value)

-- The loop over the headers.
unfoldable pub write_headers : List Field → Text
unfolding header_line
write_headers [] = []
write_headers (h ∷ headers) =
    let rest = write_headers headers in
    if is_nil h.name then rest else header_line h.name h.value ++ (crlf ++ rest)

unfoldable pub write_length : Printing → Answer → Text
unfolding header_line
write_length p a =
    if has_header a.headers content_length
    then []
    else header_line content_length (p.to_string (length a.body)) ++ crlf

-- `writeResponse` on a response that is not null.
unfoldable pub write_response : Printing → Answer → Text
unfolding make_status_line write_headers write_length
write_response p a =
    (version ++ make_status_line p a.status_code)
    ++ (crlf ++ (write_headers a.headers ++ (write_length p a ++ (crlf ++ a.body))))
