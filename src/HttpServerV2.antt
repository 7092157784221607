-- ===== src/HttpServerV2.antt =====
-- cHTTPServer_V2.h and cHTTPServer_V2.cpp: a worker around a server of Simple-Web-Server, which is not
-- modelled: how its calls end is a choice. cHTTPSServer_V2.cpp has the same code around the server with
-- certificates.
pub mod Server
pub mod Secure
pub mod Restoring
pub mod Starting
mod Tests
