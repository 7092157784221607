-- ===== src/TcpSyncClient/Send.antt =====
-- cTCPSyncClient_V2.h: `sendAll`.
use thread_component.Prelude.{
  ℕ, zero, suc, ◌+◌, Option, none, some, if◌then◌else◌, ◌==◌, ltb, length, drop,
}
use thread_component.TcpSyncClient.Client.{
  IoResult, success, invalid_argument, not_connected, Client, eintr, is_connected, clear_last_error,
  classify_socket_error,
}
use thread_component.TcpSyncClient.Os.{Os, Buffer, took, send_fails}

-- A pointer with a size: null, or at bytes that are as many.
pub data Region : Type 0 where
  null : ℕ → Region
  at : Buffer → Region

module _ (os : Os) where
  open os use {World}

  -- What a method with a loop returns: nothing where the fuel ran out.
  abbrev pub Sent : Type 0
  Sent = Option (IoResult × Client × World)

  abbrev fail_with : ℕ → Client → World → Sent
  fail_with e c w = let (r, c') = classify_socket_error e c in some (r, c', w)

  -- `while (totalSent < size)`.
  unfoldable pub send_loop : ℕ → ℕ → Buffer → ℕ → Client → World → Sent
  send_loop zero fd bytes total_sent c w = none
  send_loop (suc fuel) fd bytes total_sent c w =
      let (r, w') = os.send fd (drop total_sent bytes) w in
      let again = send_loop fuel fd bytes total_sent c w' in
      let more = λ (n : ℕ). send_loop fuel fd bytes (total_sent + n) c w' in
      let round : Sent = elim r [
        | took n e ↦ if n == 0 then fail_with e c w' else more n
        | send_fails e ↦ if e == eintr then again else fail_with e c w'
      ] in
      if ltb total_sent (length bytes) then round else some (success, c, w)

  -- `sendAll(data, size)`; the two other overloads pass the memory of their argument.
  unfoldable pub send_all : ℕ → Region → Client → World → Sent
  unfolding is_connected clear_last_error
  send_all fuel (null size) c w =
      some (if size == 0 then success else invalid_argument, clear_last_error c, w)
  send_all fuel (at bytes) c w =
      if length bytes == 0 then some (success, clear_last_error c, w) else elim c.socket [
        | none ↦ some (not_connected, clear_last_error c, w)
        | some fd ↦ send_loop fuel fd bytes 0 (clear_last_error c) w
      ]
