-- ===== src/TcpSyncClient/Delimiter.antt =====
-- cTCPSyncClient_V2.h: `receiveUntilDelimiter`.
use thread_component.Prelude.{
  ℕ, zero, suc, ◌+◌, ◌-◌, ◌≤◌, ◌<◌, ◌≡◌, refl, sym, ap, ◌∙◌, inl, inr, Bool, true, false, Option,
  none, some, [], ◌∷◌, ◌++◌, append-nil, append_assoc, arith, ltb, lt→ltb, ◌==◌, ◌||◌, min, is_nil,
  length, length-append, Returns, Bool-cases,
}
use thread_component.TcpSyncClient.Client.{IoResult, success, Client, clear_last_error}
use thread_component.TcpSyncClient.Delivery.Receiving.{TakesSome, receive_some-TakesSome}
use thread_component.TcpSyncClient.Os.Laws.{Laws}
use thread_component.TcpSyncClient.Os.{Os, Buffer}
use thread_component.TcpSyncClient.Receive.{
  contains, default_receive_chunk_size, receive_some, delimiter_loop, receive_until_delimiter,
}

-- Whether a result is `Success`.
abbrev pub is_success : IoResult → Bool
is_success success = true
is_success _ = false

module _ {os : Os} (laws : Laws os) where
  open laws use {received, pending}

  -- What a receiving method took off the stream is in `out`, within the limit; and it ended with
  -- success exactly where `test` holds of it.
  pub record TakesUntil (test : Buffer → Bool) (fd max_bytes : ℕ) (before : Buffer)
      (r : IoResult × Buffer × Client × os.World) : Type 0 where
    pub stream : received r.3 fd ≡ before ++ r.1
    pub size : length r.1 ≤ max_bytes
    pub ended : is_success r.0 ≡ test r.1

  module _ (fuel' fd max_bytes : ℕ) (delimiter before : Buffer) where
    -- A round of the loop, by what `receiveSome` gave.
    delimiter_round :
        (fuel : ℕ) (out : Buffer) (c : Client) (w : os.World)
        → ((out' : Buffer) (c' : Client) (w' : os.World)
            → c'.socket ≡ some fd
            → contains delimiter out' ≡ false
            → length out' ≤ max_bytes
            → max_bytes < fuel + length out'
            → pending w' < fuel'
            → received w' fd ≡ before ++ out'
            → Returns
                (TakesUntil (contains delimiter) fd max_bytes before)
                (delimiter_loop os fuel fuel' delimiter max_bytes out' c' w'))
        → contains delimiter out ≡ false
        → length out < max_bytes
        → max_bytes < suc fuel + length out
        → pending w < fuel'
        → received w fd ≡ before ++ out
        → (r : Option (IoResult × Buffer × Client × os.World))
        → receive_some os fuel' (min default_receive_chunk_size (max_bytes - length out)) c w ≡ r
        → Returns
            (TakesSome laws fd
              (min default_receive_chunk_size (max_bytes - length out))
              (received w fd)
              (pending w)
              (some fd))
            r
        → Returns
            (TakesUntil (contains delimiter) fd max_bytes before)
            (delimiter_loop os (suc fuel) fuel' delimiter max_bytes out c w)
    unfolding delimiter_loop
    delimiter_round fuel out c w ih clean lt enough calm s none eq h = absurd h
    delimiter_round fuel out c w ih clean lt enough calm s (some (success, chunk, c', w')) eq h =
        let more = lt→ltb (length out) max_bytes lt in
        let onward : received w' fd ≡ before ++ (out ++ chunk) =
          h.stream ∙ ap (λ l. l ++ chunk) s ∙ append_assoc before out chunk in
        let size = length-append out chunk in
        elim h.size [
          | inr (bad, _) ↦ absurd (bad refl)
          | inl (_, some', few, calm') ↦ elim (Bool-cases (contains delimiter (out ++ chunk))) [
            | inl found ↦
                rw (more, eq, found, delimiter_loop)
                  (record { stream = onward; size = omega (arith, size); ended = sym found })
            | inr missing ↦
                rw (more, eq, missing, delimiter_loop)
                  (ih (out ++ chunk) c' w' h.same_socket missing (omega (arith, size))
                    (omega (arith, size)) (omega arith) onward)
          ]
        ]
    delimiter_round fuel out c w ih clean lt enough calm s (some (r, chunk, c', w')) eq h =
        let more = lt→ltb (length out) max_bytes lt in
        elim h.size [
          | inl (ok, _, _, _) ↦ cc
          | inr (_, nothing) ↦
              rw (more, eq, delimiter_loop)
                (record {
                  stream =
                      h.stream
                      ∙ ap (λ l. received w fd ++ l) nothing
                      ∙ append-nil (received w fd)
                      ∙ s;
                  size = omega arith;
                  ended = sym clean;
                })
        ]

    delimiter_loop-TakesUntil :
        (fuel : ℕ) (out : Buffer) (c : Client) (w : os.World)
        → c.socket ≡ some fd
        → contains delimiter out ≡ false
        → length out ≤ max_bytes
        → max_bytes < fuel + length out
        → pending w < fuel'
        → received w fd ≡ before ++ out
        → Returns
            (TakesUntil (contains delimiter) fd max_bytes before)
            (delimiter_loop os fuel fuel' delimiter max_bytes out c w)
    unfolding delimiter_loop
    delimiter_loop-TakesUntil zero out c w sock clean le enough calm s = absurd (omega arith)
    delimiter_loop-TakesUntil (suc fuel) out c w sock clean le enough calm s =
        elim (Bool-cases (ltb (length out) max_bytes)) [
          | inl more ↦
              delimiter_round fuel out c w (delimiter_loop-TakesUntil fuel) clean (ground arith)
                enough calm s
                (receive_some os fuel' (min default_receive_chunk_size (max_bytes - length out)) c
                  w)
                refl
                (receive_some-TakesSome laws fuel' fd
                  (min default_receive_chunk_size (max_bytes - length out)) c w sock (ground arith)
                  calm)
          | inr full ↦ rw full (record { stream = s; size = le; ended = sym clean })
        ]

  contains-nil : (delimiter : Buffer) → is_nil delimiter ≡ false → contains delimiter [] ≡ false
  unfolding contains
  contains-nil [] h = cc
  contains-nil (x ∷ d) h = refl

  -- `receiveUntilDelimiter` with a delimiter that is not empty and a positive limit, on a
  -- connected client, with fuel for the limit in its own loop and for the interruptions in that
  -- of `receiveSome`, returns. What it gives is what it took off the stream, in order and within
  -- the limit; and the result is `Success` exactly when that holds the delimiter, also where the
  -- delimiter was cut by the chunks of `recv`.
  pub receive_until_delimiter-TakesUntil :
      (fuel fuel' fd : ℕ) (delimiter : Buffer) (max_bytes : ℕ) (c : Client) (w : os.World)
      → c.socket ≡ some fd
      → is_nil delimiter ≡ false
      → 0 < max_bytes
      → max_bytes < fuel
      → pending w < fuel'
      → Returns
          (TakesUntil (contains delimiter) fd max_bytes (received w fd))
          (receive_until_delimiter os fuel fuel' delimiter max_bytes c w)
  unfolding receive_until_delimiter clear_last_error
  receive_until_delimiter-TakesUntil fuel fuel' fd delimiter max_bytes c w sock d pos' enough calm =
      let valid : (is_nil delimiter || max_bytes == 0) ≡ false = ground arith in
      rw (valid, sock, receive_until_delimiter)
        (delimiter_loop-TakesUntil fuel' fd max_bytes delimiter (received w fd) fuel []
          (clear_last_error c) w sock (contains-nil delimiter d) (omega arith) (omega arith) calm
          (sym (append-nil (received w fd))))
