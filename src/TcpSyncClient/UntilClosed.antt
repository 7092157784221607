-- ===== src/TcpSyncClient/UntilClosed.antt =====
-- cTCPSyncClient_V2.h: `receiveUntilClosed`.
use thread_component.Prelude.{
  ℕ, zero, suc, ◌+◌, ◌-◌, ◌≤◌, ◌<◌, ◌≡◌, refl, sym, ap, ◌∙◌, inl, inr, true, false, Option, none,
  some, [], ◌++◌, append-nil, append_assoc, arith, ltb, lt→ltb, ◌==◌, min, length, length-append,
  Returns, Bool-cases,
}
use thread_component.TcpSyncClient.Client.{IoResult, success, closed, Client, clear_last_error}
use thread_component.TcpSyncClient.Delimiter.{is_success}
use thread_component.TcpSyncClient.Delivery.Receiving.{TakesSome, receive_some-TakesSome}
use thread_component.TcpSyncClient.Os.Laws.{Laws}
use thread_component.TcpSyncClient.Os.{Os, Buffer}
use thread_component.TcpSyncClient.Receive.{
  default_receive_chunk_size, receive_some, closed_loop, receive_until_closed,
}

module _ {os : Os} (laws : Laws os) where
  open laws use {received, pending}

  -- What was taken off the stream is in `out`, within the limit, and below it on success.
  pub record TakesAll (fd max_bytes : ℕ) (before : Buffer)
      (r : IoResult × Buffer × Client × os.World) : Type 0 where
    pub stream : received r.3 fd ≡ before ++ r.1
    pub size : length r.1 ≤ max_bytes
    pub ended : is_success r.0 ≡ true → length r.1 < max_bytes

  module _ (fuel' fd max_bytes : ℕ) (before : Buffer) where
    -- The buffer is left as it was by a round that gave no byte.
    none_taken :
        (out chunk : Buffer) (w w' : os.World)
        → received w fd ≡ before ++ out
        → received w' fd ≡ received w fd ++ chunk
        → chunk ≡ []
        → received w' fd ≡ before ++ out
    none_taken out chunk w w' s h nothing =
        h ∙ ap (λ l. received w fd ++ l) nothing ∙ append-nil (received w fd) ∙ s

    closed_round :
        (fuel : ℕ) (out : Buffer) (c : Client) (w : os.World)
        → ((out' : Buffer) (c' : Client) (w' : os.World)
            → c'.socket ≡ some fd
            → length out' ≤ max_bytes
            → max_bytes < fuel + length out'
            → pending w' < fuel'
            → received w' fd ≡ before ++ out'
            → Returns
                (TakesAll fd max_bytes before)
                (closed_loop os fuel fuel' max_bytes out' c' w'))
        → length out < max_bytes
        → max_bytes < suc fuel + length out
        → pending w < fuel'
        → received w fd ≡ before ++ out
        → (r : Option (IoResult × Buffer × Client × os.World))
        → receive_some os fuel' (min default_receive_chunk_size (max_bytes - length out)) c w ≡ r
        → Returns
            (TakesSome laws fd
              (min default_receive_chunk_size (max_bytes - length out))
              (received w fd)
              (pending w)
              (some fd))
            r
        → Returns (TakesAll fd max_bytes before) (closed_loop os (suc fuel) fuel' max_bytes out c w)
    unfolding closed_loop
    closed_round fuel out c w ih lt enough calm s none eq h = absurd h
    closed_round fuel out c w ih lt enough calm s (some (success, chunk, c', w')) eq h =
        let more = lt→ltb (length out) max_bytes lt in
        let onward : received w' fd ≡ before ++ (out ++ chunk) =
          h.stream ∙ ap (λ l. l ++ chunk) s ∙ append_assoc before out chunk in
        let size = length-append out chunk in
        elim h.size [
          | inr (bad, _) ↦ absurd (bad refl)
          | inl (_, some', few, calm') ↦
              rw (more, eq, closed_loop)
                (ih (out ++ chunk) c' w' h.same_socket (omega (arith, size)) (omega (arith, size))
                  (omega arith) onward)
        ]
    closed_round fuel out c w ih lt enough calm s (some (closed, chunk, c', w')) eq h =
        let more = lt→ltb (length out) max_bytes lt in
        elim h.size [
          | inl (ok, _, _, _) ↦ cc
          | inr (_, nothing) ↦
              rw (more, eq, closed_loop)
                (record {
                  stream = none_taken out chunk w w' s h.stream nothing;
                  size = omega arith;
                  ended = λ _. lt;
                })
        ]
    closed_round fuel out c w ih lt enough calm s (some (r, chunk, c', w')) eq h =
        let more = lt→ltb (length out) max_bytes lt in
        elim h.size [
          | inl (ok, _, _, _) ↦ cc
          | inr (_, nothing) ↦
              rw (more, eq, closed_loop)
                (record {
                  stream = none_taken out chunk w w' s h.stream nothing;
                  size = omega arith;
                  ended = λ _. lt;
                })
        ]

    closed_loop-TakesAll :
        (fuel : ℕ) (out : Buffer) (c : Client) (w : os.World)
        → c.socket ≡ some fd
        → length out ≤ max_bytes
        → max_bytes < fuel + length out
        → pending w < fuel'
        → received w fd ≡ before ++ out
        → Returns (TakesAll fd max_bytes before) (closed_loop os fuel fuel' max_bytes out c w)
    unfolding closed_loop
    closed_loop-TakesAll zero out c w sock le enough calm s = absurd (omega arith)
    closed_loop-TakesAll (suc fuel) out c w sock le enough calm s =
        elim (Bool-cases (ltb (length out) max_bytes)) [
          | inl more ↦
              closed_round fuel out c w (closed_loop-TakesAll fuel) (ground arith) enough calm s
                (receive_some os fuel' (min default_receive_chunk_size (max_bytes - length out)) c
                  w)
                refl
                (receive_some-TakesSome laws fuel' fd
                  (min default_receive_chunk_size (max_bytes - length out)) c w sock (ground arith)
                  calm)
          | inr full ↦ rw full (record { stream = s; size = le; ended = λ h. cc })
        ]

  -- `receiveUntilClosed` with a positive limit, on a connected client, with fuel for the limit in
  -- its own loop and for the interruptions in that of `receiveSome`, returns. What it gives is what
  -- it took off the stream, in order and within the limit; and on `Success` it is below the limit, so
  -- that a stream that fills the limit is never told to be whole.
  pub receive_until_closed-TakesAll :
      (fuel fuel' fd max_bytes : ℕ) (c : Client) (w : os.World)
      → c.socket ≡ some fd
      → 0 < max_bytes
      → max_bytes < fuel
      → pending w < fuel'
      → Returns
          (TakesAll fd max_bytes (received w fd))
          (receive_until_closed os fuel fuel' max_bytes c w)
  unfolding receive_until_closed clear_last_error
  receive_until_closed-TakesAll fuel fuel' fd max_bytes c w sock pos' enough calm =
      let valid : (max_bytes == 0) ≡ false = ground arith in
      rw (valid, sock, receive_until_closed)
        (closed_loop-TakesAll fuel' fd max_bytes (received w fd) fuel [] (clear_last_error c) w sock
          (omega arith) (omega arith) calm (sym (append-nil (received w fd))))
