-- ===== src/TcpSyncClient/Receive.antt =====
-- cTCPSyncClient_V2.h: the four `receive` methods.
use thread_component.Prelude.{
  ℕ, zero, suc, ◌-◌, min, Bool, true, false, Option, none, some, [], ◌∷◌, ◌++◌, ◌&&◌, ◌||◌,
  if◌then◌else◌, ◌==◌, ltb, length, is_nil,
}
use thread_component.TcpSyncClient.Client.{
  IoResult, success, closed, failed, invalid_argument, not_connected, Client, eintr, emsgsize,
  clear_last_error, set_last_platform_error, classify_socket_error,
}
use thread_component.TcpSyncClient.Os.{Os, Buffer, got, end_of_stream, recv_fails}

abbrev pub default_receive_chunk_size : ℕ
default_receive_chunk_size = 4096

-- Whether `text` begins with `pattern'`, and whether it holds it anywhere (`std::search`).
pub begins : Buffer → Buffer → Bool
begins [] text = true
begins (x ∷ pattern') [] = false
begins (x ∷ pattern') (y ∷ text) = x == y && begins pattern' text

unfoldable pub contains : Buffer → Buffer → Bool
unfolding begins
contains pattern' [] = begins pattern' []
contains pattern' (y ∷ text) = begins pattern' (y ∷ text) || contains pattern' text

module _ (os : Os) where
  open os use {World}

  -- The result, the buffer `out`, the client and the world after a method with a loop; nothing where
  -- the fuel ran out.
  abbrev pub Received : Type 0
  Received = Option (IoResult × Buffer × Client × World)

  abbrev pub give : IoResult → Buffer → Client → World → Received
  give r out c w = some (r, out, c, w)

  abbrev fail_with : ℕ → Buffer → Client → World → Received
  fail_with e out c w = let (r, c') = classify_socket_error e c in give r out c' w

  -- `while (true)` of `receiveSome`.
  unfoldable pub some_loop : ℕ → ℕ → ℕ → Client → World → Received
  some_loop zero fd max_bytes c w = none
  some_loop (suc fuel) fd max_bytes c w =
      let (r, w') = os.recv fd max_bytes w in
      let again = some_loop fuel fd max_bytes c w' in
      elim r [
        | got bytes ↦ give success bytes c w'
        | end_of_stream ↦ give closed [] c w'
        | recv_fails e ↦ if e == eintr then again else fail_with e [] c w'
      ]

  unfoldable pub receive_some : ℕ → ℕ → Client → World → Received
  unfolding clear_last_error
  receive_some fuel max_bytes c w =
      if max_bytes == 0 then give invalid_argument [] (clear_last_error c) w else elim c.socket [
        | none ↦ give not_connected [] (clear_last_error c) w
        | some fd ↦ some_loop fuel fd max_bytes (clear_last_error c) w
      ]

  -- `while (totalRead < bytesToRead)`: `out` is the part of the buffer that is filled.
  unfoldable pub exact_loop : ℕ → ℕ → ℕ → Buffer → Client → World → Received
  exact_loop zero fd bytes_to_read out c w = none
  exact_loop (suc fuel) fd bytes_to_read out c w =
      let (r, w') = os.recv fd (bytes_to_read - length out) w in
      let again = exact_loop fuel fd bytes_to_read out c w' in
      let more = λ (bytes : Buffer). exact_loop fuel fd bytes_to_read (out ++ bytes) c w' in
      let round : Received = elim r [
        | got bytes ↦ more bytes
        | end_of_stream ↦ give closed out c w'
        | recv_fails e ↦ if e == eintr then again else fail_with e out c w'
      ] in
      if ltb (length out) bytes_to_read then round else give success out c w

  unfoldable pub receive_exact : ℕ → ℕ → Client → World → Received
  unfolding clear_last_error
  receive_exact fuel bytes_to_read c w =
      if bytes_to_read == 0 then give success [] (clear_last_error c) w else elim c.socket [
        | none ↦ give not_connected [] (clear_last_error c) w
        | some fd ↦ exact_loop fuel fd bytes_to_read [] (clear_last_error c) w
      ]

  -- The loop of `receiveUntilDelimiter`. Each round has the fuel `fuel'` for its `receiveSome`.
  unfoldable pub delimiter_loop : ℕ → ℕ → Buffer → ℕ → Buffer → Client → World → Received
  delimiter_loop zero fuel' delimiter max_bytes out c w = none
  delimiter_loop (suc fuel) fuel' delimiter max_bytes out c w =
      let next_chunk_size = min default_receive_chunk_size (max_bytes - length out) in
      let more = λ (out' : Buffer) (c' : Client) (w' : World).
        delimiter_loop fuel fuel' delimiter max_bytes out' c' w' in
      let round : Received = elim (receive_some fuel' next_chunk_size c w) [
        | none ↦ none
        | some (success, chunk, c', w') ↦
            if contains delimiter (out ++ chunk)
            then give success (out ++ chunk) c' w'
            else more (out ++ chunk) c' w'
        | some (r, chunk, c', w') ↦ give r out c' w'
      ] in
      if ltb (length out) max_bytes
      then round
      else give failed out (set_last_platform_error emsgsize c) w

  -- Both overloads: that over a text copies the text.
  unfoldable pub receive_until_delimiter : ℕ → ℕ → Buffer → ℕ → Client → World → Received
  unfolding clear_last_error
  receive_until_delimiter fuel fuel' delimiter max_bytes c w =
      if is_nil delimiter || max_bytes == 0
      then give invalid_argument [] (clear_last_error c) w
      else elim c.socket [
        | none ↦ give not_connected [] (clear_last_error c) w
        | some fd ↦ delimiter_loop fuel fuel' delimiter max_bytes [] (clear_last_error c) w
      ]

  -- The loop of `receiveUntilClosed`.
  unfoldable pub closed_loop : ℕ → ℕ → ℕ → Buffer → Client → World → Received
  closed_loop zero fuel' max_bytes out c w = none
  closed_loop (suc fuel) fuel' max_bytes out c w =
      let next_chunk_size = min default_receive_chunk_size (max_bytes - length out) in
      let more =
        λ (out' : Buffer) (c' : Client) (w' : World). closed_loop fuel fuel' max_bytes out' c' w' in
      let round : Received = elim (receive_some fuel' next_chunk_size c w) [
        | none ↦ none
        | some (success, chunk, c', w') ↦ more (out ++ chunk) c' w'
        | some (closed, chunk, c', w') ↦ give success out (clear_last_error c') w'
        | some (r, chunk, c', w') ↦ give r out c' w'
      ] in
      if ltb (length out) max_bytes
      then round
      else give failed out (set_last_platform_error emsgsize c) w

  unfoldable pub receive_until_closed : ℕ → ℕ → ℕ → Client → World → Received
  unfolding clear_last_error
  receive_until_closed fuel fuel' max_bytes c w =
      if max_bytes == 0 then give invalid_argument [] (clear_last_error c) w else elim c.socket [
        | none ↦ give not_connected [] (clear_last_error c) w
        | some fd ↦ closed_loop fuel fuel' max_bytes [] (clear_last_error c) w
      ]
