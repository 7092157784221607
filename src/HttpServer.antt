-- ===== src/HttpServer.antt =====
-- cHTTPServer.cpp: an HTTP server, a worker around a server of the Simple-Web-Server library.
pub mod Text
pub mod Answer
pub mod Copies
pub mod Sharing
pub mod Start
pub mod Messages
pub mod Settings
pub mod Serving
pub mod Hosted
pub mod Preparations
pub mod Points
pub mod Decided
pub mod Listening
pub mod Response
pub mod Reader
pub mod Framing
pub mod Lines
pub mod Seen
pub mod Fetched
pub mod Secure
pub mod Routes
pub mod Lookup
pub mod Installed
pub mod Snapshot
pub mod Setup
pub mod Configured
pub mod Requests
pub mod Answered
pub mod Replies
pub mod SecureReplies
mod Samples
mod Tests
mod ReplyTests
mod HostedTests
mod FetchedTests
