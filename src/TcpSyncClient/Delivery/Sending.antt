-- ===== src/TcpSyncClient/Delivery/Sending.antt =====
-- cTCPSyncClient_V2.h: what `sendAll` puts on the stream.
use thread_component.Prelude.{
  ℕ, zero, suc, ◌+◌, ◌-◌, ◌≤◌, ◌<◌, ◌≡◌, ◌≢◌, refl, sym, ap, subst, ◌∙◌, ◌⊎◌, inl, inr, true,
  Option, some, ◌++◌, append-nil, append_assoc, arith, ltb, ◌==◌, length, take, drop, take_add,
  length-drop, Returns, Bool-cases, ==_iff,
}
use thread_component.TcpSyncClient.Client.{IoResult, success, Client, eintr, clear_last_error}
use thread_component.TcpSyncClient.Errors.{classify-ne-success, classify-socket}
use thread_component.TcpSyncClient.Os.Laws.{Laws}
use thread_component.TcpSyncClient.Os.{Os, Buffer, SendOutcome, took, send_fails}
use thread_component.TcpSyncClient.Send.{send_loop, send_all, at}

module _ {os : Os} (laws : Laws os) where
  open laws use {sent, pending, send_took, send_failed, send_interrupted}

  -- What `send` has taken on `fd`, which was `before`, is now that and the first `count` of the bytes;
  -- they are all the bytes exactly when the result is success. The client has `socket`, and after
  -- success at most `limit` signals are to come.
  pub record Delivers (fd : ℕ) (bytes before : Buffer) (limit : ℕ) (socket : Option ℕ)
      (r : IoResult × Client × os.World) : Type 0 where
    pub count : ℕ
    pub stream : sent r.2 fd ≡ before ++ take count bytes
    pub complete :
        ((r.0 ≡ success) × (count ≡ length bytes)) ⊎ ((r.0 ≢ success) × (count < length bytes))
    pub same_socket : r.1.socket ≡ socket
    pub calm : r.0 ≡ success → pending r.2 ≤ limit

  module _ (fd : ℕ) (bytes before : Buffer) (limit : ℕ) where
    -- One round of the loop, by what `send` returns.
    send_round :
        (fuel total_sent : ℕ) (c : Client) (w : os.World)
        → (let w' = (os.send fd (drop total_sent bytes) w).1 in
            (total' : ℕ)
            → total' ≤ length bytes
            → length bytes + pending w' < fuel + total'
            → pending w' ≤ limit
            → sent w' fd ≡ before ++ take total' bytes
            → Returns
                (Delivers fd bytes before limit c.socket)
                (send_loop os fuel fd bytes total' c w'))
        → total_sent < length bytes
        → length bytes + pending w < suc fuel + total_sent
        → pending w ≤ limit
        → sent w fd ≡ before ++ take total_sent bytes
        → (r : SendOutcome) → (os.send fd (drop total_sent bytes) w).0 ≡ r
        → Returns
            (Delivers fd bytes before limit c.socket)
            (send_loop os (suc fuel) fd bytes total_sent c w)
    unfolding send_loop
    send_round fuel total c w ih lt enough low s (took n e) eq =
        let more : ltb total (length bytes) ≡ true = ground arith in
        let (le, stream, quiet) = send_took fd (drop total bytes) w n e eq in
        let w' = (os.send fd (drop total bytes) w).1 in
        let within : n ≤ length bytes - total = omega (arith, le, length-drop total bytes) in
        let onward : sent w' fd ≡ before ++ take (total + n) bytes =
          stream
          ∙ ap (λ l. l ++ take n (drop total bytes)) s
          ∙ append_assoc before (take total bytes) (take n (drop total bytes))
          ∙ ap (◌++◌ before) (sym (take_add total n bytes (omega arith))) in
        elim (Bool-cases (n == 0)) [
          | inl none' ↦
              rw (more, eq, none', send_loop)
                (record {
                  count = total + n;
                  stream = onward;
                  complete = inr (classify-ne-success e c, ground arith);
                  same_socket = classify-socket e c;
                  calm = λ k. absurd (classify-ne-success e c k);
                })
          | inr some' ↦
              rw (more, eq, some', send_loop)
                (ih (total + n) (omega arith) (ground arith) (omega (arith, quiet)) onward)
        ]
    send_round fuel total c w ih lt enough low s (send_fails e) eq =
        let more : ltb total (length bytes) ≡ true = ground arith in
        elim (Bool-cases (e == eintr)) [
          | inl interrupted ↦
              rw (more, eq, interrupted, send_loop)
                (let again =
                    send_interrupted fd (drop total bytes) w
                      (eq ∙ ap send_fails ((==_iff e 4).0 interrupted)) in
                  ih total (omega arith) (omega (arith, again)) (omega (arith, again))
                    (send_failed fd (drop total bytes) w e eq ∙ s))
          | inr broken ↦
              rw (more, eq, broken, send_loop)
                (record {
                  count = total;
                  stream = send_failed fd (drop total bytes) w e eq ∙ s;
                  complete = inr (classify-ne-success e c, lt);
                  same_socket = classify-socket e c;
                  calm = λ k. absurd (classify-ne-success e c k);
                })
        ]

    send_loop-Delivers :
        (fuel total : ℕ) (c : Client) (w : os.World)
        → total ≤ length bytes
        → length bytes + pending w < fuel + total
        → pending w ≤ limit
        → sent w fd ≡ before ++ take total bytes
        → Returns (Delivers fd bytes before limit c.socket) (send_loop os fuel fd bytes total c w)
    unfolding send_loop
    send_loop-Delivers zero total c w le enough low s = absurd (omega arith)
    send_loop-Delivers (suc fuel) total c w le enough low s =
        elim (Bool-cases (ltb total (length bytes))) [
          | inl more ↦
              send_round fuel total c w
                (λ total'. send_loop-Delivers fuel total' c (os.send fd (drop total bytes) w).1)
                (ground arith) enough low s (os.send fd (drop total bytes) w).0 refl
          | inr full ↦ rw full (record {
            count = total;
            stream = s;
            complete = inl (refl, ground arith);
            same_socket = refl;
            calm = λ _. low;
          })
        ]

  -- `sendAll` of some bytes on a connected client, with fuel for the bytes and the interruptions,
  -- returns. The operating system has then taken from it, on that connection, a first part of the
  -- bytes, in order and none twice: all of them exactly when the result is `Success`, however `send`
  -- cuts them, whatever signals come between. Whether the peer gets them is not said. The client keeps
  -- its socket.
  pub send_all-Delivers :
      (fuel fd : ℕ) (bytes : Buffer) (c : Client) (w : os.World)
      → c.socket ≡ some fd
      → length bytes + pending w < fuel
      → Returns
          (Delivers fd bytes (sent w fd) (pending w) (some fd))
          (send_all os fuel (at bytes) c w)
  unfolding send_all clear_last_error
  send_all-Delivers fuel fd bytes c w connected enough = elim (Bool-cases (length bytes == 0)) [
    | inl nothing ↦ rw nothing (record {
      count = 0;
      stream = sym (append-nil (sent w fd));
      complete = inl (refl, ground arith);
      same_socket = connected;
      calm = λ _. omega arith;
    })
    | inr something ↦
        rw (something, connected, send_all)
          (subst
            (λ k.
              Returns (Delivers fd bytes (sent w fd) (pending w) k)
                (send_loop os fuel fd bytes 0 (clear_last_error c) w))
            connected
            (send_loop-Delivers fd bytes (sent w fd) (pending w) fuel 0 (clear_last_error c) w
              (omega arith) (omega arith) (omega arith) (sym (append-nil (sent w fd)))))
  ]
