-- ===== src/TcpSyncClient/Closing.antt =====
-- cTCPSyncClient_V2.h: which descriptors are open after `connect` and after an exchange.
use thread_component.Prelude.{
  ℕ, zero, suc, ◌≡◌, refl, sym, ap, ◌∙◌, Bool, true, false, not, ◌&&◌, ◌||◌, Option, none, some,
  List, [], ◌∷◌, arith, ◌==◌, ==_iff, Bool-cases, inl, inr,
}
use thread_component.Prelude.Int.{ℤ, pos, negsuc}
use thread_component.TcpSyncClient.Client.{
  Client, close_socket_value, close, to_timeval, configure_socket, try_address, connect_loop,
  connect_found, clear_last_error, connect,
}
use thread_component.TcpSyncClient.Os.{
  Os, Buffer, Outcome, succeeds, fails, SocketOption, so_sndtimeo, so_rcvtimeo, Timeval,
}

-- What the client relies on of the calls that open and close a descriptor: `socket` opens a new one,
-- `close` closes the one it names, and no other call changes which are open.
pub record Descriptors (os : Os) : Type 0 where
  pub is_open : os.World → ℕ → Bool
  pub opens :
      (a : os.Addr) (w : os.World) (fd x : ℕ)
      → (os.socket a w).0 ≡ succeeds fd
      → (is_open w fd ≡ false) × (is_open (os.socket a w).1 x ≡ (x == fd || is_open w x))
  pub opens_none :
      (a : os.Addr) (w : os.World) (e x : ℕ)
      → (os.socket a w).0 ≡ fails e
      → is_open (os.socket a w).1 x ≡ is_open w x
  pub closes :
      (fd x : ℕ) (w : os.World) → is_open (os.close fd w) x ≡ (not (x == fd) && is_open w x)
  pub shuts : (fd x : ℕ) (w : os.World) → is_open (os.shutdown_both fd w) x ≡ is_open w x
  pub sets :
      (fd : ℕ) (name : SocketOption) (t : Timeval) (x : ℕ) (w : os.World)
      → is_open (os.setsockopt fd name t w).1 x ≡ is_open w x
  pub connects :
      (fd : ℕ) (a : os.Addr) (x : ℕ) (w : os.World) → is_open (os.connect fd a w).1 x ≡ is_open w x
  pub looks_up :
      (name : Buffer) (port x : ℕ) (w : os.World)
      → is_open (os.getaddrinfo name port w).1 x ≡ is_open w x

module _ {os : Os} (d : Descriptors os) where
  open d use {is_open}

  -- What an attempt to connect from `w` leaves: the open descriptors of `w` and a client with none,
  -- or the same and one new descriptor, which the client holds.
  pub data Leaves (w : os.World) (r : Bool × Client × os.World) : Type 0 where
    refused : r.0 ≡ false → r.1.socket ≡ none → ((x : ℕ) → is_open r.2 x ≡ is_open w x) → Leaves w r
    connected :
        (fd : ℕ)
        → r.0 ≡ true
        → r.1.socket ≡ some fd
        → is_open w fd ≡ false
        → ((x : ℕ) → is_open r.2 x ≡ (x == fd || is_open w x))
        → Leaves w r

  configure_socket-open :
      (fd : ℕ) (c : Client) (w : os.World)
      → ((configure_socket os fd c w).1.socket ≡ c.socket)
        × ((x : ℕ) → is_open (configure_socket os fd c w).2 x ≡ is_open w x)
  unfolding configure_socket
  configure_socket-open fd c w = (
    ground arith,
    λ x. ground (
      arith,
      d.sets fd so_sndtimeo (to_timeval c.send_timeout) x w,
      d.sets fd so_rcvtimeo (to_timeval c.receive_timeout) x
          (os.setsockopt fd so_sndtimeo (to_timeval c.send_timeout) w).1,
    ),
  )

  close_socket_value-open :
      (fd x : ℕ) (w : os.World)
      → is_open (close_socket_value os fd w) x ≡ (not (x == fd) && is_open w x)
  unfolding close_socket_value
  close_socket_value-open fd x w =
      d.closes fd x (os.shutdown_both fd w) ∙ ap (λ b. not (x == fd) && b) (d.shuts fd x w)

  -- Closing a descriptor that was opened above `w` brings back what was open in `w`.
  reclosed :
      (w : os.World) (fd : ℕ) (w' : os.World)
      → is_open w fd ≡ false
      → ((x : ℕ) → is_open w' x ≡ (x == fd || is_open w x))
      → (x : ℕ) → is_open (close_socket_value os fd w') x ≡ is_open w x
  reclosed w fd w' new' opened x = elim (Bool-cases (x == fd)) [
    | inl same ↦
        let e : x ≡ fd = (==_iff x fd).0 same in
        close_socket_value-open fd x w' ∙ rw same (sym (ap (is_open w) e ∙ new'))
    | inr other ↦ close_socket_value-open fd x w' ∙ rw other (opened x ∙ rw other refl)
  ]

  module _ (a : os.Addr) (c : Client) (w : os.World) (unheld : c.socket ≡ none) where
    -- The attempt behind a new descriptor.
    try_opened : (fd : ℕ) → (os.socket a w).0 ≡ succeeds fd → Leaves w (try_address os a c w)
    unfolding try_address
    try_opened fd eq = elim (Bool-cases (configure_socket os fd c w₁).0) [
      | inr bad ↦
          rw (eq, bad, try_address) (refused refl (conf.0 ∙ unheld) (reclosed w fd w₂ new' opened₂))
      | inl good ↦ go (os.connect fd a w₂).0 refl good
    ]
      where
        w₁ : os.World
        w₁ = (os.socket a w).1

        w₂ : os.World
        w₂ = (configure_socket os fd c w₁).2

        conf :
            ((configure_socket os fd c w₁).1.socket ≡ c.socket)
            × ((x : ℕ) → is_open w₂ x ≡ is_open w₁ x)
        conf = configure_socket-open fd c w₁

        new' : is_open w fd ≡ false
        new' = (d.opens a w fd fd eq).0

        opened₂ : (x : ℕ) → is_open w₂ x ≡ (x == fd || is_open w x)
        opened₂ x = conf.1 x ∙ (d.opens a w fd x eq).1

        opened₃ : (x : ℕ) → is_open (os.connect fd a w₂).1 x ≡ (x == fd || is_open w x)
        opened₃ x = d.connects fd a x w₂ ∙ opened₂ x

        go :
            (r : Outcome (Unit {0}))
            → (os.connect fd a w₂).0 ≡ r
            → (configure_socket os fd c w₁).0 ≡ true
            → Leaves w (try_address os a c w)
        go (succeeds u) e good = rw (eq, good, e, try_address) (connected fd refl refl new' opened₃)
        go (fails e') e good =
            rw (eq, good, e, try_address)
              (refused refl (conf.0 ∙ unheld) (reclosed w fd (os.connect fd a w₂).1 new' opened₃))

    try_address-Leaves : Leaves w (try_address os a c w)
    unfolding try_address
    try_address-Leaves = go (os.socket a w).0 refl
      where
        go : (r : Outcome ℕ) → (os.socket a w).0 ≡ r → Leaves w (try_address os a c w)
        go (succeeds fd) eq = try_opened fd eq
        go (fails e) eq = rw (eq, try_address) (refused refl unheld (λ x. d.opens_none a w e x eq))

  Leaves-eq :
      (w w' : os.World) (r : Bool × Client × os.World)
      → ((x : ℕ) → is_open w' x ≡ is_open w x)
      → Leaves w' r
      → Leaves w r
  Leaves-eq w w' r same (refused no' unheld e) = refused no' unheld (λ x. e x ∙ same x)
  Leaves-eq w w' r same (connected fd yes' held new' e) =
      connected fd yes' held (sym (same fd) ∙ new') (λ x. e x ∙ ap (λ b. x == fd || b) (same x))

  -- One round of the loop.
  loop_round :
      (a : os.Addr) (more : List os.Addr) (c : Client) (w : os.World)
      → (let r = try_address os a c w in
          r.1.socket ≡ none → Leaves r.2 (connect_loop os more r.1 r.2))
      → Leaves w (try_address os a c w)
      → Leaves w (connect_loop os (a ∷ more) c w)
  unfolding connect_loop
  loop_round a more c w ih (refused no' unheld e) =
      let r = try_address os a c w in
      rw no' (Leaves-eq w r.2 (connect_loop os more r.1 r.2) e (ih unheld))
  loop_round a more c w ih (connected fd yes' held new' e) = rw yes' (connected fd refl held new' e)

  connect_loop-Leaves :
      (addrs : List os.Addr) (c : Client) (w : os.World)
      → c.socket ≡ none
      → Leaves w (connect_loop os addrs c w)
  unfolding connect_loop
  connect_loop-Leaves [] c w unheld = refused refl unheld (λ x. refl)
  connect_loop-Leaves (a ∷ more) c w unheld =
      loop_round a more c w
        (connect_loop-Leaves more (try_address os a c w).1 (try_address os a c w).2)
        (try_address-Leaves a c w unheld)

  pub close-socket :
      (c : Client) (w : os.World) (s : Option ℕ) → c.socket ≡ s → (close os c w).0.socket ≡ none
  unfolding close
  close-socket c w none e = rw (e, close) e
  close-socket c w (some fd) e = rw (e, close) refl

  connect_found-Leaves :
      (found : List os.Addr × ℤ) (c : Client) (w : os.World)
      → c.socket ≡ none
      → Leaves w (connect_found os found c w)
  unfolding connect_found
  connect_found-Leaves (addresses, pos zero) c w unheld = connect_loop-Leaves addresses c w unheld
  connect_found-Leaves (addresses, pos (suc n)) c w unheld = refused refl unheld (λ x. refl)
  connect_found-Leaves (addresses, negsuc n) c w unheld = refused refl unheld (λ x. refl)

  -- `connect` first closes the client's old connection. Whatever the calls return, it then leaves
  -- open what was open, and, exactly when it answers true, one new descriptor, the client's own: no
  -- descriptor of a failed attempt stays open.
  pub connect-Leaves : (c : Client) (w : os.World) → Leaves (close os c w).1 (connect os c w)
  unfolding connect clear_last_error
  connect-Leaves c w =
      let c' = (close os c w).0 in
      let w' = (close os c w).1 in
      let looked = os.getaddrinfo c'.server_address c'.port w' in
      Leaves-eq w' looked.1 (connect os c w) (λ x. d.looks_up c'.server_address c'.port x w')
        (connect_found-Leaves looked.0 (clear_last_error c') looked.1
          (close-socket c w c.socket refl))
