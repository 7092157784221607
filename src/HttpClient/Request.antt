-- ===== src/HttpClient/Request.antt =====
-- cHTTPClient.h and cHTTPClient.cpp: a request, and the options that `perform` sets for it.
use thread_component.Prelude.{ℕ, Bool, true, List, [], ◌∷◌, ◌++◌, ◌&&◌, not, is_nil, if◌then◌else◌}
use thread_component.Prelude.Int.{ℤ, pos}
use thread_component.HttpClient.Response.{Header, has_header}
use thread_component.HttpClient.Text.{Text}

-- `enm_Method`.
pub data Method : Type 0 where
  get post put patch delete head : Method

-- `st_Request`. Timeouts are in milliseconds.
pub record Request : Type 0 where
  pub url : Text
  pub method : Method
  pub headers : List Header
  pub body : Text
  pub user_agent : Text
  pub content_type : Text
  pub accept : Text
  pub basic_auth_user : Text
  pub basic_auth_password : Text
  pub bearer_token : Text
  pub ca_info_path : Text
  pub connect_timeout : ℤ
  pub timeout : ℤ
  pub max_redirects : ℤ
  pub follow_redirects : Bool
  pub verify_peer : Bool
  pub verify_host : Bool
  pub accept_compressed_response : Bool

-- "HotBits/cHTTPClient".
abbrev pub default_user_agent : Text
default_user_agent =
    72 ∷ 111 ∷ 116 ∷ 66 ∷ 105 ∷ 116 ∷ 115 ∷ 47 ∷ 99 ∷ 72 ∷ 84 ∷ 84 ∷ 80 ∷ 67 ∷ 108 ∷ 105 ∷ 101 ∷ 110
    ∷ 116 ∷ []

abbrev pub new : Request
new = record {
  url = [];
  method = get;
  headers = [];
  body = [];
  user_agent = default_user_agent;
  content_type = [];
  accept = [];
  basic_auth_user = [];
  basic_auth_password = [];
  bearer_token = [];
  ca_info_path = [];
  connect_timeout = pos 10000;
  timeout = pos 180000;
  max_redirects = pos 10;
  follow_redirects = true;
  verify_peer = true;
  verify_host = true;
  accept_compressed_response = true;
}

-- The options of libcurl that `perform` sets, with their values. Those of the callbacks and of the
-- error buffer, which are always the same, are left out.
pub data CurlOption : Type 0 where
  curlopt_url : Text → CurlOption
  curlopt_no_signal : CurlOption
  curlopt_connect_timeout_ms : ℤ → CurlOption
  curlopt_timeout_ms : ℤ → CurlOption
  curlopt_follow_location : Bool → CurlOption
  curlopt_max_redirs : ℤ → CurlOption
  curlopt_ssl_verify_peer : Bool → CurlOption
  curlopt_ssl_verify_host : ℕ → CurlOption
  curlopt_user_agent : Text → CurlOption
  curlopt_accept_encoding : Text → CurlOption
  curlopt_ca_info : Text → CurlOption
  curlopt_http_auth_bearer : CurlOption
  curlopt_xoauth2_bearer : Text → CurlOption
  curlopt_http_auth_basic : CurlOption
  curlopt_user_name : Text → CurlOption
  curlopt_password : Text → CurlOption
  curlopt_http_header : List Text → CurlOption
  curlopt_http_get : CurlOption
  curlopt_http_post : CurlOption
  curlopt_no_body : CurlOption
  curlopt_custom_request : Text → CurlOption
  curlopt_post_fields : Text → CurlOption

-- "Content-Type".
abbrev pub content_type_name : Text
content_type_name = 67 ∷ 111 ∷ 110 ∷ 116 ∷ 101 ∷ 110 ∷ 116 ∷ 45 ∷ 84 ∷ 121 ∷ 112 ∷ 101 ∷ []

-- "Accept".
abbrev pub accept_name : Text
accept_name = 65 ∷ 99 ∷ 99 ∷ 101 ∷ 112 ∷ 116 ∷ []

unfoldable pub method_to_string : Method → Text
method_to_string get = 71 ∷ 69 ∷ 84 ∷ []
method_to_string post = 80 ∷ 79 ∷ 83 ∷ 84 ∷ []
method_to_string put = 80 ∷ 85 ∷ 84 ∷ []
method_to_string patch = 80 ∷ 65 ∷ 84 ∷ 67 ∷ 72 ∷ []
method_to_string delete = 68 ∷ 69 ∷ 76 ∷ 69 ∷ 84 ∷ 69 ∷ []
method_to_string head = 72 ∷ 69 ∷ 65 ∷ 68 ∷ []

-- A header with `name` is added at the back, if the request has a value and no such header.
unfoldable pub add_default : Text → Text → List Header → List Header
add_default name value headers =
    if not (is_nil value) && not (has_header headers name)
    then headers ++ record { name = name; value = value } ∷ []
    else headers

unfoldable pub request_headers : Request → List Header
unfolding add_default
request_headers r =
    add_default accept_name r.accept (add_default content_type_name r.content_type r.headers)

-- `appendHeader` for each header: its line for libcurl, if it has a name.
unfoldable pub header_lines : List Header → List Text
header_lines [] = []
header_lines (h ∷ headers) =
    let rest = header_lines headers in
    if is_nil h.name then rest else (h.name ++ 58 ∷ 32 ∷ h.value) ∷ rest

abbrev unless : Bool → List CurlOption → List CurlOption
unless test options = if test then [] else options

unfoldable pub apply_method : Method → List CurlOption
unfolding method_to_string
apply_method post = curlopt_http_post ∷ []
apply_method put = curlopt_custom_request (method_to_string put) ∷ []
apply_method patch = curlopt_custom_request (method_to_string patch) ∷ []
apply_method delete = curlopt_custom_request (method_to_string delete) ∷ []
apply_method head = curlopt_no_body ∷ curlopt_custom_request (method_to_string head) ∷ []
apply_method get = curlopt_http_get ∷ []

unfoldable pub authentication : Request → List CurlOption
authentication r =
    if not (is_nil r.bearer_token)
    then curlopt_http_auth_bearer ∷ curlopt_xoauth2_bearer r.bearer_token ∷ []
    else if not (is_nil r.basic_auth_user)
    then curlopt_http_auth_basic
      ∷ curlopt_user_name r.basic_auth_user
      ∷ curlopt_password r.basic_auth_password
      ∷ []
    else []

-- The options in the order in which `perform` sets them.
unfoldable pub options : Request → List CurlOption
unfolding authentication request_headers header_lines apply_method
options r =
    let lines = header_lines (request_headers r) in
    curlopt_url r.url
      ∷ curlopt_no_signal
      ∷ curlopt_connect_timeout_ms r.connect_timeout
      ∷ curlopt_timeout_ms r.timeout
      ∷ curlopt_follow_location r.follow_redirects
      ∷ curlopt_max_redirs r.max_redirects
      ∷ curlopt_ssl_verify_peer r.verify_peer
      ∷ curlopt_ssl_verify_host (if r.verify_host then 2 else 0)
      ∷ unless (is_nil r.user_agent) (curlopt_user_agent r.user_agent ∷ [])
    ++ unless (not r.accept_compressed_response) (curlopt_accept_encoding [] ∷ [])
    ++ unless (is_nil r.ca_info_path) (curlopt_ca_info r.ca_info_path ∷ [])
    ++ authentication r
    ++ unless (is_nil lines) (curlopt_http_header lines ∷ [])
    ++ apply_method r.method
    ++ unless (is_nil r.body) (curlopt_post_fields r.body ∷ [])

-- The requests of `get`, `post` and the others.
unfoldable pub bare : Method → Text → List Header → Request
bare method url headers = record new { url = url; method = method; headers = headers }

unfoldable pub with_body : Method → Text → Text → List Header → Text → Request
with_body method url body headers content_type = record new {
  url = url;
  method = method;
  headers = headers;
  body = body;
  content_type = content_type;
}
