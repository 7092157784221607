-- ===== src/TcpSyncClient/Delivery.antt =====
-- cTCPSyncClient_V2.h: what goes through the socket, and that the loops end.
pub mod Sending
pub mod Receiving
