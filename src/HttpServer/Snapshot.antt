-- ===== src/HttpServer/Snapshot.antt =====
-- cHTTPServer.cpp and cHTTPSServer.cpp: `makeRequestSnapshot`, which copies a request of the library.
use thread_component.Prelude.{ℕ, Option, none, some, List, [], ◌∷◌}
use thread_component.HttpClient.Text.{Text}
use thread_component.HttpServer.Answer.{Field}

-- The address as a text is `none` where `to_string` throws.
pub record Endpoint : Type 0 where
  pub address : Option Text
  pub port : ℕ

-- What the source reads of a request of the library.
pub record Incoming : Type 0 where
  pub method : Text
  pub path : Text
  pub query_string : Text
  pub http_version : Text
  pub content : Text
  pub header : List (Text × Text)
  pub query : List (Text × Text)
  pub path_match : List Text
  pub remote_endpoint : Endpoint
  pub local_endpoint : Endpoint

-- `st_Request`.
pub record Request : Type 0 where
  pub method : Text
  pub path : Text
  pub query_string : Text
  pub http_version : Text
  pub body : Text
  pub headers : List Field
  pub query_fields : List Field
  pub path_match : List Text
  pub remote_address : Text
  pub remote_port : ℕ
  pub local_address : Text
  pub local_port : ℕ

unfoldable pub endpoint_address_to_string : Endpoint → Text
endpoint_address_to_string e = elim e.address [ none ↦ [] | some text ↦ text ]

unfoldable pub copy_fields : List (Text × Text) → List Field
copy_fields [] = []
copy_fields ((name, value) ∷ fields) = record { name = name; value = value } ∷ copy_fields fields

-- The request is `none` where the pointer is null.
unfoldable pub make_request_snapshot : Option Incoming → Request
unfolding endpoint_address_to_string copy_fields
make_request_snapshot none = record {
  method = [];
  path = [];
  query_string = [];
  http_version = [];
  body = [];
  headers = [];
  query_fields = [];
  path_match = [];
  remote_address = [];
  remote_port = 0;
  local_address = [];
  local_port = 0;
}
make_request_snapshot (some r) = record {
  method = r.method;
  path = r.path;
  query_string = r.query_string;
  http_version = r.http_version;
  body = r.content;
  headers = copy_fields r.header;
  query_fields = copy_fields r.query;
  path_match = r.path_match;
  remote_address = endpoint_address_to_string r.remote_endpoint;
  remote_port = r.remote_endpoint.port;
  local_address = endpoint_address_to_string r.local_endpoint;
  local_port = r.local_endpoint.port;
}
