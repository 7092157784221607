-- ===== src/TcpServer.antt =====
-- cTCPServer_V2.h: a TCP server that is a worker, with a thread for each client.
-- Each atomic access and each part under `m_clientsMutex` is a step; the results of the socket calls
-- are choices of the environment. A descriptor that was taken out of its slot stands in `closing`
-- until the thread that took it has closed it.
pub mod Session
pub mod Run
pub mod System
pub mod Descriptors
pub mod Holding
pub mod Accounting
pub mod Phase
pub mod Ending
pub mod Join
pub mod Races
mod Tests
