-- ===== src/TcpSyncClient/Errors.antt =====
-- cTCPSyncClient_V2.h: how socket errors are reported.
use thread_component.Prelude.{ℕ, ◌≡◌, ◌≢◌, refl, arith}
use thread_component.TcpSyncClient.Client.{success, Client, classify_socket_error}

pub classify-ne-success : (e : ℕ) (c : Client) → (classify_socket_error e c).0 ≢ success
unfolding classify_socket_error
classify-ne-success e c h = ground arith

pub classify-socket : (e : ℕ) (c : Client) → (classify_socket_error e c).1.socket ≡ c.socket
unfolding classify_socket_error
classify-socket e c = refl
