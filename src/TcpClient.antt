-- ===== src/TcpClient.antt =====
-- cTCPClient_V2.h: a TCP client that is a worker, with a thread that reads and one that writes.
-- Each atomic access and each part under `m_outboundMutex` is a step; the results of the socket
-- calls are choices of the environment.
pub mod Client
pub mod System
pub mod Writer
pub mod Moves
pub mod Wire
pub mod Early
mod Tests
