-- ===== src/HttpClient/Response.antt =====
-- cHTTPClient.h and cHTTPClient.cpp: a response, and the two callbacks that fill it.
use thread_component.Prelude.{
  ℕ, Bool, true, false, none, some, List, [], ◌∷◌, ◌++◌, ◌&&◌, if◌then◌else◌, ◌==◌, ltb, leb,
  length, take,
}
use thread_component.HttpClient.Text.{Text, trim_copy, iequals, text_eq, split_colon}

-- `st_Header`.
pub record Header : Type 0 where
  pub name : Text
  pub value : Text

-- `st_Response`. Status and curl codes are not negative; `elapsed` is in milliseconds.
pub record Response : Type 0 where
  pub status_code : ℕ
  pub curl_code : ℕ
  pub body : Text
  pub headers : List Header
  pub raw_headers : Text
  pub effective_url : Text
  pub error_message : Text
  pub elapsed : ℕ

abbrev pub new : Response
new = record {
  status_code = 0;
  curl_code = 0;
  body = [];
  headers = [];
  raw_headers = [];
  effective_url = [];
  error_message = [];
  elapsed = 0;
}

unfoldable pub ok : Response → Bool
ok r = r.curl_code == 0 && leb 200 r.status_code && ltb r.status_code 300

unfoldable pub has_header : List Header → Text → Bool
has_header [] name = false
has_header (h ∷ headers) name =
    let rest = has_header headers name in if iequals h.name name then true else rest

-- The loop of `headerValue`.
unfoldable pub header_loop : List Header → Text → Text
header_loop [] name = []
header_loop (h ∷ headers) name =
    let rest = header_loop headers name in if iequals h.name name then h.value else rest

unfoldable pub header_value : Text → Response → Text
unfolding header_loop
header_value name r = header_loop r.headers name

-- "HTTP/".
abbrev pub http_prefix : Text
http_prefix = 72 ∷ 84 ∷ 84 ∷ 80 ∷ 47 ∷ []

unfoldable pub starts_response : Text → Bool
starts_response line = leb 5 (length line) && text_eq (take 5 line) http_prefix

-- The header that a line holds, if it holds a `:`.
unfoldable pub parse_header : Text → List Header
parse_header line = elim (split_colon line) [
  | none ↦ []
  | some (name, value) ↦ record { name = trim_copy name; value = trim_copy value } ∷ []
]

-- `writeHeaderCallback` and `writeBodyCallback` on `size * count` bytes, with both pointers set.
unfoldable pub write_header : Text → Response → Response
unfolding starts_response parse_header
write_header line r =
    let r' = if starts_response line then record r { headers = []; raw_headers = [] } else r in
    record r' { raw_headers = r'.raw_headers ++ line; headers = r'.headers ++ parse_header line }

unfoldable pub write_body : Text → Response → Response
write_body text r = record r { body = r.body ++ text }
