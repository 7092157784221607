-- ===== src/TcpSyncClient/Delivery/Receiving.antt =====
-- cTCPSyncClient_V2.h: what `receiveSome` and `receiveExact` take off the stream.
use thread_component.Prelude.{
  ℕ, zero, suc, ◌+◌, ◌-◌, ◌≤◌, ◌<◌, ◌≡◌, ◌≢◌, refl, sym, ap, subst, ◌∙◌, ◌⊎◌, inl, inr, false,
  Option, some, [], ◌++◌, append-nil, append_assoc, arith, ltb, lt→ltb, ◌==◌, ==_iff, length,
  length-append, Returns, Bool-cases,
}
use thread_component.TcpSyncClient.Client.{IoResult, success, Client, eintr, clear_last_error}
use thread_component.TcpSyncClient.Errors.{classify-ne-success, classify-socket}
use thread_component.TcpSyncClient.Os.Laws.{Laws}
use thread_component.TcpSyncClient.Os.{Os, Buffer, RecvOutcome, got, end_of_stream, recv_fails}
use thread_component.TcpSyncClient.Receive.{some_loop, receive_some, exact_loop, receive_exact}

module _ {os : Os} (laws : Laws os) where
  open laws use {received, pending, recv_got, recv_ended, recv_failed, recv_interrupted}

  -- One chunk, on a stream that had `before` taken off: at least one byte and at most `max_bytes` on
  -- success, and else none. The chunk is what has gone off the stream.
  pub record TakesSome (fd max_bytes : ℕ) (before : Buffer) (limit : ℕ) (socket : Option ℕ)
      (r : IoResult × Buffer × Client × os.World) : Type 0 where
    pub stream : received r.3 fd ≡ before ++ r.1
    pub size :
        ((r.0 ≡ success) × (0 < length r.1) × (length r.1 ≤ max_bytes) × (pending r.3 ≤ limit))
        ⊎ ((r.0 ≢ success) × (r.1 ≡ []))
    pub same_socket : r.2.socket ≡ socket

  module _ (fd max_bytes : ℕ) (before : Buffer) (limit : ℕ) (c : Client) where
    some_round :
        (fuel : ℕ) (w : os.World)
        → (let w' = (os.recv fd max_bytes w).1 in
            pending w' < fuel
            → pending w' ≤ limit
            → received w' fd ≡ before
            → Returns
                (TakesSome fd max_bytes before limit c.socket)
                (some_loop os fuel fd max_bytes c w'))
        → pending w < suc fuel
        → pending w ≤ limit
        → received w fd ≡ before
        → (r : RecvOutcome) → (os.recv fd max_bytes w).0 ≡ r
        → Returns
            (TakesSome fd max_bytes before limit c.socket)
            (some_loop os (suc fuel) fd max_bytes c w)
    unfolding some_loop
    some_round fuel w ih enough le s (got bytes) eq =
        let (some', few, stream, calm) = recv_got fd max_bytes w bytes eq in
        rw (eq, some_loop)
          (record {
            stream = stream ∙ ap (λ l. l ++ bytes) s;
            size = inl (refl, some', few, omega (arith, calm));
            same_socket = refl;
          })
    some_round fuel w ih enough le s end_of_stream eq =
        rw (eq, some_loop)
          (record {
            stream = recv_ended fd max_bytes w eq ∙ s ∙ sym (append-nil before);
            size = inr ((λ h. cc), refl);
            same_socket = refl;
          })
    some_round fuel w ih enough le s (recv_fails e) eq = elim (Bool-cases (e == eintr)) [
      | inl interrupted ↦
          let again =
            recv_interrupted fd max_bytes w (eq ∙ ap recv_fails ((==_iff e 4).0 interrupted)) in
          rw (eq, interrupted, some_loop)
            (ih (omega (arith, again)) (omega (arith, again)) (recv_failed fd max_bytes w e eq ∙ s))
      | inr broken ↦
          rw (eq, broken, some_loop)
            (record {
              stream = recv_failed fd max_bytes w e eq ∙ s ∙ sym (append-nil before);
              size = inr (classify-ne-success e c, refl);
              same_socket = classify-socket e c;
            })
    ]

    some_loop-TakesSome :
        (fuel : ℕ) (w : os.World)
        → pending w < fuel
        → pending w ≤ limit
        → received w fd ≡ before
        → Returns
            (TakesSome fd max_bytes before limit c.socket)
            (some_loop os fuel fd max_bytes c w)
    some_loop-TakesSome zero w enough le s = absurd (omega arith)
    some_loop-TakesSome (suc fuel) w enough le s =
        some_round fuel w (some_loop-TakesSome fuel (os.recv fd max_bytes w).1) enough le s
          (os.recv fd max_bytes w).0 refl

  -- `receiveSome` of a positive number of bytes on a connected client, with fuel for the
  -- interruptions, returns. What it gives is what it took off the stream: on `Success` at least
  -- one byte and at most as many as asked for, and else none. The client keeps its socket.
  pub receive_some-TakesSome :
      (fuel fd max_bytes : ℕ) (c : Client) (w : os.World)
      → c.socket ≡ some fd
      → 0 < max_bytes
      → pending w < fuel
      → Returns
          (TakesSome fd max_bytes (received w fd) (pending w) (some fd))
          (receive_some os fuel max_bytes c w)
  unfolding receive_some clear_last_error
  receive_some-TakesSome fuel fd max_bytes c w connected pos' enough =
      let some' : (max_bytes == 0) ≡ false = ground arith in
      rw (some', connected, receive_some)
        (subst
          (λ k.
            Returns (TakesSome fd max_bytes (received w fd) (pending w) k)
              (some_loop os fuel fd max_bytes (clear_last_error c) w))
          connected
          (some_loop-TakesSome fd max_bytes (received w fd) (pending w) (clear_last_error c) fuel w
            enough (omega arith) refl))

  -- The whole of a `receiveExact` of `bytes_to_read` bytes: what is in `out` is what was taken off the
  -- stream, and it has the right length exactly on success; else it is shorter.
  pub record TakesExactly (fd bytes_to_read : ℕ) (before : Buffer) (socket : Option ℕ)
      (r : IoResult × Buffer × Client × os.World) : Type 0 where
    pub stream : received r.3 fd ≡ before ++ r.1
    pub complete :
        ((r.0 ≡ success) × (length r.1 ≡ bytes_to_read))
        ⊎ ((r.0 ≢ success) × (length r.1 < bytes_to_read))
    pub same_socket : r.2.socket ≡ socket

  module _ (fd bytes_to_read : ℕ) (before : Buffer) (c : Client) where
    exact_round :
        (fuel : ℕ) (out : Buffer) (w : os.World)
        → (let w' = (os.recv fd (bytes_to_read - length out) w).1 in
            (out' : Buffer)
            → length out' ≤ bytes_to_read
            → bytes_to_read + pending w' < fuel + length out'
            → received w' fd ≡ before ++ out'
            → Returns
                (TakesExactly fd bytes_to_read before c.socket)
                (exact_loop os fuel fd bytes_to_read out' c w'))
        → length out < bytes_to_read
        → bytes_to_read + pending w < suc fuel + length out
        → received w fd ≡ before ++ out
        → (r : RecvOutcome) → (os.recv fd (bytes_to_read - length out) w).0 ≡ r
        → Returns
            (TakesExactly fd bytes_to_read before c.socket)
            (exact_loop os (suc fuel) fd bytes_to_read out c w)
    unfolding exact_loop
    exact_round fuel out w ih lt enough s (got bytes) eq =
        let wanted = bytes_to_read - length out in
        let (some', few, stream, calm) = recv_got fd wanted w bytes eq in
        let more = lt→ltb (length out) bytes_to_read lt in
        let size = length-append out bytes in
        rw (more, eq, exact_loop)
          (ih (out ++ bytes) (omega (arith, size)) (omega (arith, size))
            (stream ∙ ap (λ l. l ++ bytes) s ∙ append_assoc before out bytes))
    exact_round fuel out w ih lt enough s end_of_stream eq =
        let more = lt→ltb (length out) bytes_to_read lt in
        rw (more, eq, exact_loop)
          (record {
            stream = recv_ended fd (bytes_to_read - length out) w eq ∙ s;
            complete = inr ((λ h. cc), lt);
            same_socket = refl;
          })
    exact_round fuel out w ih lt enough s (recv_fails e) eq =
        let wanted = bytes_to_read - length out in
        let more = lt→ltb (length out) bytes_to_read lt in
        elim (Bool-cases (e == eintr)) [
          | inl interrupted ↦
              let again =
                recv_interrupted fd wanted w (eq ∙ ap recv_fails ((==_iff e 4).0 interrupted)) in
              rw (more, eq, interrupted, exact_loop)
                (ih out (omega arith) (omega (arith, again)) (recv_failed fd wanted w e eq ∙ s))
          | inr broken ↦
              rw (more, eq, broken, exact_loop)
                (record {
                  stream = recv_failed fd wanted w e eq ∙ s;
                  complete = inr (classify-ne-success e c, lt);
                  same_socket = classify-socket e c;
                })
        ]

    exact_loop-TakesExactly :
        (fuel : ℕ) (out : Buffer) (w : os.World)
        → length out ≤ bytes_to_read
        → bytes_to_read + pending w < fuel + length out
        → received w fd ≡ before ++ out
        → Returns
            (TakesExactly fd bytes_to_read before c.socket)
            (exact_loop os fuel fd bytes_to_read out c w)
    unfolding exact_loop
    exact_loop-TakesExactly zero out w le enough s = absurd (omega arith)
    exact_loop-TakesExactly (suc fuel) out w le enough s =
        elim (Bool-cases (ltb (length out) bytes_to_read)) [
          | inl more ↦
              exact_round fuel out w
                (λ out'.
                  exact_loop-TakesExactly fuel out' (os.recv fd (bytes_to_read - length out) w).1)
                (ground arith) enough s (os.recv fd (bytes_to_read - length out) w).0 refl
          | inr full ↦
              rw full
                (record { stream = s; complete = inl (refl, ground arith); same_socket = refl })
        ]

  -- `receiveExact` on a connected client, with fuel for the bytes and the interruptions, returns. What
  -- it gives is what it took off the stream, in order, however `recv` cuts it and whatever signals
  -- come between: as many bytes as asked for exactly when the result is `Success`, and else fewer.
  pub receive_exact-TakesExactly :
      (fuel fd bytes_to_read : ℕ) (c : Client) (w : os.World)
      → c.socket ≡ some fd
      → bytes_to_read + pending w < fuel
      → Returns
          (TakesExactly fd bytes_to_read (received w fd) (some fd))
          (receive_exact os fuel bytes_to_read c w)
  unfolding receive_exact clear_last_error
  receive_exact-TakesExactly fuel fd bytes_to_read c w connected enough =
      elim (Bool-cases (bytes_to_read == 0)) [
        | inl nothing ↦ rw nothing (record {
          stream = sym (append-nil (received w fd));
          complete = inl (refl, ground arith);
          same_socket = connected;
        })
        | inr something ↦
            rw (something, connected, receive_exact)
              (subst
                (λ k.
                  Returns (TakesExactly fd bytes_to_read (received w fd) k)
                    (exact_loop os fuel fd bytes_to_read [] (clear_last_error c) w))
                connected
                (exact_loop-TakesExactly fd bytes_to_read (received w fd) (clear_last_error c) fuel
                  [] w (omega arith) (omega arith) (sym (append-nil (received w fd)))))
      ]
