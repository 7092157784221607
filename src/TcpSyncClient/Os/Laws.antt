-- ===== src/TcpSyncClient/Os/Laws.antt =====
-- What the client relies on of `send` and `recv`: they take and give the bytes of a stream in order,
-- no more than asked for, and a signal interrupts a call only finitely often.
use thread_component.Prelude.{ℕ, ◌≤◌, ◌<◌, ◌≡◌, ◌++◌, length, take}
use thread_component.TcpSyncClient.Os.{Os, Buffer, took, send_fails, got, end_of_stream, recv_fails}

-- `sent` is what `send` has taken on a socket, `received` what `recv` has given from it, and
-- `pending` bounds the interruptions to come; 4 is `EINTR`.
pub record Laws (os : Os) : Type 0 where
  pub sent : os.World → ℕ → Buffer
  pub received : os.World → ℕ → Buffer
  pub pending : os.World → ℕ
  pub send_took :
      (fd : ℕ) (bytes : Buffer) (w : os.World) (n e : ℕ)
      → (os.send fd bytes w).0 ≡ took n e
      → (n ≤ length bytes)
        × (sent (os.send fd bytes w).1 fd ≡ sent w fd ++ take n bytes)
        × (pending (os.send fd bytes w).1 ≤ pending w)
  pub send_failed :
      (fd : ℕ) (bytes : Buffer) (w : os.World) (e : ℕ)
      → (os.send fd bytes w).0 ≡ send_fails e
      → sent (os.send fd bytes w).1 fd ≡ sent w fd
  pub send_interrupted :
      (fd : ℕ) (bytes : Buffer) (w : os.World)
      → (os.send fd bytes w).0 ≡ send_fails 4
      → pending (os.send fd bytes w).1 < pending w
  pub recv_got :
      (fd max_bytes : ℕ) (w : os.World) (bytes : Buffer)
      → (os.recv fd max_bytes w).0 ≡ got bytes
      → (0 < length bytes)
        × (length bytes ≤ max_bytes)
        × (received (os.recv fd max_bytes w).1 fd ≡ received w fd ++ bytes)
        × (pending (os.recv fd max_bytes w).1 ≤ pending w)
  pub recv_ended :
      (fd max_bytes : ℕ) (w : os.World)
      → (os.recv fd max_bytes w).0 ≡ end_of_stream
      → received (os.recv fd max_bytes w).1 fd ≡ received w fd
  pub recv_failed :
      (fd max_bytes : ℕ) (w : os.World) (e : ℕ)
      → (os.recv fd max_bytes w).0 ≡ recv_fails e
      → received (os.recv fd max_bytes w).1 fd ≡ received w fd
  pub recv_interrupted :
      (fd max_bytes : ℕ) (w : os.World)
      → (os.recv fd max_bytes w).0 ≡ recv_fails 4
      → pending (os.recv fd max_bytes w).1 < pending w
  pub shutdown_calm : (fd : ℕ) (w : os.World) → pending (os.shutdown_write fd w).1 ≤ pending w
