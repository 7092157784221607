-- ===== src/TcpSyncClient/Shut.antt =====
-- cTCPSyncClient_V2.h: the one-shot exchanges close the connection.
use thread_component.Prelude.{
  ℕ, zero, suc, ◌+◌, ◌-◌, ◌≤◌, ◌<◌, ◌≡◌, refl, not, Option, none, some, [], ◌++◌, arith, ◌==◌, ltb,
  min, length, length-append, Returns, Bool-cases, inl, inr, if◌then◌else◌,
}
use thread_component.TcpSyncClient.Client.{
  IoResult, success, closed, timeout, not_connected, invalid_argument, failed, Client, close,
  connect, clear_last_error, shutdown_write,
}
use thread_component.TcpSyncClient.Closing.{
  Descriptors, Leaves, refused, connected, connect-Leaves, close-socket,
}
use thread_component.TcpSyncClient.Delivery.Receiving.{TakesSome, receive_some-TakesSome}
use thread_component.TcpSyncClient.Delivery.Sending.{Delivers, send_all-Delivers}
use thread_component.TcpSyncClient.Exchange.{
  close_on_exit, after_shutdown, exchange_once, exchange_once_until_closed,
}
use thread_component.TcpSyncClient.Os.Laws.{Laws}
use thread_component.TcpSyncClient.Os.{Os, Buffer, Outcome, succeeds, fails}
use thread_component.TcpSyncClient.Receive.{
  Received, give, receive_some, closed_loop, receive_until_closed, default_receive_chunk_size,
}
use thread_component.TcpSyncClient.Send.{Sent, at, send_all}

-- A value comes out at all.
abbrev Ends : {A : Type 0} → Option A → Type 0
Ends o = Returns (λ _. Unit {0}) o

Returns-Ends : {A : Type 0} (P : A → Type 0) (o : Option A) → Returns P o → Ends o
Returns-Ends P none h = h
Returns-Ends P (some a) h = tt

module _ {os : Os} (laws : Laws os) (d : Descriptors os) where
  open laws use {pending}

  -- The client has no connection.
  abbrev pub Disconnected : IoResult × Buffer × Client × os.World → Type 0
  Disconnected r = r.2.socket ≡ none

  close_on_exit-none : (r : Received os) → Ends r → Returns Disconnected (close_on_exit os r)
  unfolding close_on_exit
  close_on_exit-none none h = h
  close_on_exit-none (some (r, out, c, w)) h = close-socket d c w c.socket refl

  receive_some-Ends :
      (fuel fd max_bytes : ℕ) (c : Client) (w : os.World)
      → c.socket ≡ some fd
      → pending w < fuel
      → Ends (receive_some os fuel max_bytes c w)
  receive_some-Ends fuel fd max_bytes c w held enough = elim (Bool-cases (max_bytes == 0)) [
    | inl nothing ↦ unfold receive_some in rw nothing tt
    | inr something ↦
        Returns-Ends (TakesSome laws fd max_bytes (laws.received w fd) (pending w) (some fd))
          (receive_some os fuel max_bytes c w)
          (receive_some-TakesSome laws fuel fd max_bytes c w held (ground arith) enough)
  ]

  -- A round of `receiveUntilClosed`, by what `receiveSome` gave.
  closed_round :
      (fuel fuel' fd max_bytes chunk_size : ℕ) (out before : Buffer) (limit : ℕ)
      → ((out' : Buffer) (c : Client) (w : os.World)
          → c.socket ≡ some fd
          → length out' ≤ max_bytes
          → max_bytes < fuel + length out'
          → pending w < fuel'
          → Ends (closed_loop os fuel fuel' max_bytes out' c w))
      → length out + chunk_size ≤ max_bytes
      → max_bytes < suc fuel + length out
      → limit < fuel'
      → (r : Received os) → Returns (TakesSome laws fd chunk_size before limit (some fd)) r
      → Ends (elim r [
        | none ↦ none
        | some (success, chunk, c', w') ↦ closed_loop os fuel fuel' max_bytes (out ++ chunk) c' w'
        | some (closed, chunk, c', w') ↦ give os success out (clear_last_error c') w'
        | some (r, chunk, c', w') ↦ give os r out c' w'
      ])
  closed_round fuel fuel' fd max_bytes size out before limit ih le enough low none h = h
  closed_round fuel fuel' fd max_bytes size out before limit ih le enough low
        (some (success, chunk, c, w)) h =
      elim h.size [
        | inl (e, some', few, calm) ↦
            let l = length-append out chunk in
            ih (out ++ chunk) c w h.same_socket (omega (arith, l)) (omega (arith, l))
              (omega (arith, calm))
        | inr (n, e) ↦ absurd (n refl)
      ]
  closed_round fuel fuel' fd m size out before limit ih le enough low (some (closed, b, c, w)) h =
      tt
  closed_round fuel fuel' fd m size out before limit ih le enough low (some (timeout, b, c, w)) h =
      tt
  closed_round fuel fuel' fd m size out before limit ih le enough low
        (some (not_connected, b, c, w)) h =
      tt
  closed_round fuel fuel' fd m size out before limit ih le enough low
        (some (invalid_argument, b, c, w)) h =
      tt
  closed_round fuel fuel' fd m size out before limit ih le enough low (some (failed, b, c, w)) h =
      tt

  closed_loop-Ends :
      (fuel fuel' fd max_bytes : ℕ) (out : Buffer) (c : Client) (w : os.World)
      → c.socket ≡ some fd
      → length out ≤ max_bytes
      → max_bytes < fuel + length out
      → pending w < fuel'
      → Ends (closed_loop os fuel fuel' max_bytes out c w)
  unfolding closed_loop
  closed_loop-Ends zero fuel' fd max_bytes out c w held le enough low = absurd (omega arith)
  closed_loop-Ends (suc fuel) fuel' fd max_bytes out c w held le enough low =
      elim (Bool-cases (ltb (length out) max_bytes)) [
        | inr full ↦ rw full tt
        | inl more ↦
            let size = min default_receive_chunk_size (max_bytes - length out) in
            rw more (
              closed_round fuel fuel' fd max_bytes size out (laws.received w fd) (pending w)
                (λ out' c' w'. closed_loop-Ends fuel fuel' fd max_bytes out' c' w') (ground arith)
                enough low (receive_some os fuel' size c w)
                (receive_some-TakesSome laws fuel' fd size c w held (ground arith) low))
      ]

  receive_until_closed-Ends :
      (fuel fuel' fd max_bytes : ℕ) (c : Client) (w : os.World)
      → c.socket ≡ some fd
      → max_bytes < fuel
      → pending w < fuel'
      → Ends (receive_until_closed os fuel fuel' max_bytes c w)
  unfolding receive_until_closed clear_last_error
  receive_until_closed-Ends fuel fuel' fd max_bytes c w held enough low =
      elim (Bool-cases (max_bytes == 0)) [
        | inl nothing ↦ rw nothing tt
        | inr something ↦
            rw (something, held, receive_until_closed)
              (closed_loop-Ends fuel fuel' fd max_bytes [] (clear_last_error c) w held (omega arith)
                (omega arith) low)
      ]

  -- What `exchangeOnceUntilClosed` does after `shutdownWrite`.
  after_shutdown-Ends :
      (fuel fd max_bytes : ℕ) (c : Client) (w : os.World)
      → c.socket ≡ some fd
      → max_bytes < fuel
      → pending w < fuel
      → Ends (after_shutdown os fuel max_bytes (shutdown_write os c w))
  unfolding after_shutdown shutdown_write clear_last_error
  after_shutdown-Ends fuel fd max_bytes c w held enough low = go (os.shutdown_write fd w).0 refl
    where
      go :
          (o : Outcome (Unit {0}))
          → (os.shutdown_write fd w).0 ≡ o
          → Ends (after_shutdown os fuel max_bytes (shutdown_write os c w))
      go (fails e) eq = rw (held, shutdown_write, eq) tt
      go (succeeds u) eq =
          rw (held, shutdown_write, eq)
            (receive_until_closed-Ends fuel fuel fd max_bytes (clear_last_error c)
              (os.shutdown_write fd w).1 held enough (omega (arith, laws.shutdown_calm fd w)))

  -- What an exchange does after `sendAll`: `k` stands for its receiving part.
  after_send-Ends :
      (fd : ℕ) (bytes before : Buffer) (limit : ℕ) (k : Client → os.World → Received os)
      → ((c : Client) (w : os.World) → c.socket ≡ some fd → pending w ≤ limit → Ends (k c w))
      → (r : Sent os) → Returns (Delivers laws fd bytes before limit (some fd)) r
      → Ends (elim r [
        | none ↦ none
        | some (success, c₂, w₂) ↦ k c₂ w₂
        | some (r, c₂, w₂) ↦ give os r [] c₂ w₂
      ])
  after_send-Ends fd bytes before limit k ends none h = h
  after_send-Ends fd bytes before limit k ends (some (success, c, w)) h =
      ends c w h.same_socket (h.calm refl)
  after_send-Ends fd bytes before limit k ends (some (closed, c, w)) h = tt
  after_send-Ends fd bytes before limit k ends (some (timeout, c, w)) h = tt
  after_send-Ends fd bytes before limit k ends (some (not_connected, c, w)) h = tt
  after_send-Ends fd bytes before limit k ends (some (invalid_argument, c, w)) h = tt
  after_send-Ends fd bytes before limit k ends (some (failed, c, w)) h = tt

  -- An exchange: what it does when it is connected, and the guard.
  guarded-Disconnected :
      (c : Client) (w : os.World) (r : Received os)
      → ((fd : ℕ) → (connect os c w).1.socket ≡ some fd → Ends r)
      → Returns Disconnected (
          if not (connect os c w).0
          then give os failed [] (connect os c w).1 (connect os c w).2
          else close_on_exit os r)
  guarded-Disconnected c w r ends = go (connect-Leaves d c w)
    where
      go :
          Leaves d (close os c w).1 (connect os c w)
          → Returns Disconnected (
              if not (connect os c w).0
              then give os failed [] (connect os c w).1 (connect os c w).2
              else close_on_exit os r)
      go (refused no' unheld e) = rw no' unheld
      go (connected fd yes' held new' e) = rw yes' (close_on_exit-none r (ends fd held))

  -- Both one-shot exchanges, with fuel for the request and for the signals that are to come once the
  -- client has connected, and for the limit of the response, return; the client then has no
  -- connection, whatever the calls of the operating system return.
  pub exchange_once-Disconnected :
      (fuel : ℕ) (bytes : Buffer) (max_response_bytes : ℕ) (c : Client) (w : os.World)
      → length bytes + pending (connect os c w).2 < fuel
      → max_response_bytes < fuel
      → Returns Disconnected (exchange_once os fuel (at bytes) max_response_bytes c w)
        × Returns Disconnected
            (exchange_once_until_closed os fuel (at bytes) max_response_bytes c w)
  unfolding exchange_once exchange_once_until_closed
  exchange_once-Disconnected fuel bytes max_response_bytes c w enough room =
      let c₁ = (connect os c w).1 in
      let w₁ = (connect os c w).2 in
      let sent = send_all os fuel (at bytes) c₁ w₁ in
      (
        guarded-Disconnected c w
            (elim sent [
              | none ↦ none
              | some (success, c₂, w₂) ↦ receive_some os fuel max_response_bytes c₂ w₂
              | some (r, c₂, w₂) ↦ give os r [] c₂ w₂
            ])
            (λ fd held.
              after_send-Ends fd bytes (laws.sent w₁ fd) (pending w₁)
                (receive_some os fuel max_response_bytes)
                (λ c₂ w₂ held₂ calm.
                  receive_some-Ends fuel fd max_response_bytes c₂ w₂ held₂
                    (omega (arith, calm, enough)))
                sent (send_all-Delivers laws fuel fd bytes c₁ w₁ held enough)),
        guarded-Disconnected c w
            (elim sent [
              | none ↦ none
              | some (success, c₂, w₂) ↦
                  after_shutdown os fuel max_response_bytes (shutdown_write os c₂ w₂)
              | some (r, c₂, w₂) ↦ give os r [] c₂ w₂
            ])
            (λ fd held.
              after_send-Ends fd bytes (laws.sent w₁ fd) (pending w₁)
                (λ c₂ w₂. after_shutdown os fuel max_response_bytes (shutdown_write os c₂ w₂))
                (λ c₂ w₂ held₂ calm.
                  after_shutdown-Ends fuel fd max_response_bytes c₂ w₂ held₂ room
                    (omega (arith, calm, enough)))
                sent (send_all-Delivers laws fuel fd bytes c₁ w₁ held enough)),
      )
