-- ===== src/TcpSyncClient/Os.antt =====
-- The operating system as cTCPSyncClient_V2.h calls it.
pub mod Laws
use thread_component.Prelude.{ℕ, List}
use thread_component.Prelude.Int.{ℤ}

abbrev pub Buffer : Type 0
Buffer = List ℕ

-- A call that gives a value, or fails with an `errno`.
pub data Outcome (A : Type 0) : Type 0 where
  succeeds : A → Outcome A
  fails : ℕ → Outcome A

-- `send` returns how many bytes it took; the second number is the `errno` that the caller finds
-- after a return of 0, where the call sets none.
pub data SendOutcome : Type 0 where
  took : ℕ → ℕ → SendOutcome
  send_fails : ℕ → SendOutcome

-- `recv` returns some bytes, or 0 where the peer has closed, or fails.
pub data RecvOutcome : Type 0 where
  got : Buffer → RecvOutcome
  end_of_stream : RecvOutcome
  recv_fails : ℕ → RecvOutcome

pub data SocketOption : Type 0 where
  so_sndtimeo so_rcvtimeo : SocketOption

-- `timeval`.
pub record Timeval : Type 0 where
  pub tv_sec : ℕ
  pub tv_usec : ℕ

pub record Os : Type 1 where
  pub World : Type 0
  pub Addr : Type 0
  pub getaddrinfo : Buffer → ℕ → World → (List Addr × ℤ) × World
  pub socket : Addr → World → Outcome ℕ × World
  pub setsockopt : ℕ → SocketOption → Timeval → World → Outcome (Unit {0}) × World
  pub connect : ℕ → Addr → World → Outcome (Unit {0}) × World
  pub send : ℕ → Buffer → World → SendOutcome × World
  pub recv : ℕ → ℕ → World → RecvOutcome × World
  pub shutdown_write : ℕ → World → Outcome (Unit {0}) × World
  pub shutdown_both : ℕ → World → World
  pub close : ℕ → World → World
