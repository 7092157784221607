-- ===== src/TcpSyncClient.antt =====
-- cTCPSyncClient_V2.h: a synchronous TCP client.
-- The socket calls and the address lookup belong to the operating system: they are the record `Os`,
-- over a type of worlds, and what the theorems need of them stands in `Os/Laws.antt`. The loops that
-- repeat a call take fuel, since signals can interrupt a call without end; `Delivery` gives the
-- fuel that is enough where the signals are finitely many. The client is not thread-safe and so is
-- a plain value. A failed allocation, which ends the program (`noexcept`), is not modelled.
pub mod Os
pub mod Client
pub mod Send
pub mod Receive
pub mod Exchange
pub mod Delivery
pub mod Delimiter
pub mod UntilClosed
pub mod Errors
pub mod Closing
pub mod Shut
mod Loopback
mod Tests
