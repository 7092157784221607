-- ===== src/HttpClient.antt =====
-- cHTTPClient.h and cHTTPClient.cpp: an HTTP client over libcurl.
-- The library is the record `Curl` of HttpClient/Perform.antt. A text is the list of its bytes; texts
-- that are passed on as C strings have no zero byte.
pub mod Text
pub mod Trim
pub mod Response
pub mod Headers
pub mod Request
pub mod Perform
pub mod Outcome
mod Tests
