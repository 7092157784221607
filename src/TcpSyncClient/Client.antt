-- ===== src/TcpSyncClient/Client.antt =====
-- cTCPSyncClient_V2.h: the client's state, its errors, timeouts, and `connect` and `close`.
use thread_component.Prelude.{
  ℕ, zero, ◌*◌, ◌/◌, ◌%◌, Bool, true, false, Option, none, some, List, [], ◌∷◌, ◌||◌, not, ◌==◌,
  if◌then◌else◌,
}
use thread_component.Prelude.Int.{ℤ, pos, negsuc, is_negative}
use thread_component.TcpSyncClient.Os.{
  Os, Buffer, succeeds, fails, SocketOption, so_sndtimeo, so_rcvtimeo, Timeval,
}

-- `enm_IOResult`.
pub data IoResult : Type 0 where
  success closed timeout not_connected invalid_argument failed : IoResult

-- The values of Linux, where `EWOULDBLOCK` is `EAGAIN`.
abbrev pub eintr : ℕ
eintr = 4

abbrev pub eagain : ℕ
eagain = 11

abbrev pub ewouldblock : ℕ
ewouldblock = 11

abbrev pub emsgsize : ℕ
emsgsize = 90

abbrev pub etimedout : ℕ
etimedout = 110

-- `socket` is `none` where `m_socket` is -1. Timeouts are in milliseconds.
pub record Client : Type 0 where
  pub server_address : Buffer
  pub port : ℕ
  pub socket : Option ℕ
  pub send_timeout : ℤ
  pub receive_timeout : ℤ
  pub last_platform_error : ℕ
  pub last_address_info_error : ℤ

abbrev pub new : Buffer → ℕ → Client
new server_address port = record {
  server_address = server_address;
  port = port;
  socket = none;
  send_timeout = pos 0;
  receive_timeout = pos 0;
  last_platform_error = 0;
  last_address_info_error = pos 0;
}

unfoldable pub is_connected : Client → Bool
is_connected c = elim c.socket [ none ↦ false | some fd ↦ true ]

unfoldable pub clear_last_error : Client → Client
clear_last_error c = record c { last_platform_error = 0; last_address_info_error = pos 0 }

unfoldable pub set_last_platform_error : ℕ → Client → Client
set_last_platform_error e c = record c { last_platform_error = e; last_address_info_error = pos 0 }

unfoldable pub set_last_address_info_error : ℤ → Client → Client
set_last_address_info_error e c = record c { last_platform_error = 0; last_address_info_error = e }

unfoldable pub is_timeout_error : ℕ → Bool
is_timeout_error e = e == eagain || e == ewouldblock || e == etimedout

unfoldable pub classify_socket_error : ℕ → Client → IoResult × Client
unfolding is_timeout_error set_last_platform_error
classify_socket_error e c =
    (if is_timeout_error e then timeout else failed, set_last_platform_error e c)

unfoldable pub sanitize_timeout : ℤ → ℤ
sanitize_timeout t = if is_negative t then pos 0 else t

-- The count of a duration that is not negative.
count : ℤ → ℕ
count (pos n) = n
count (negsuc n) = 0

unfoldable pub to_timeval : ℤ → Timeval
unfolding sanitize_timeout count
to_timeval t =
    let clamped = count (sanitize_timeout t) in
    record { tv_sec = clamped / 1000; tv_usec = (clamped % 1000) * 1000 }

module _ (os : Os) where
  open os use {World, Addr}

  unfoldable pub close_socket_value : ℕ → World → World
  close_socket_value fd w = os.close fd (os.shutdown_both fd w)

  unfoldable pub close : Client → World → Client × World
  unfolding close_socket_value
  close c w = elim c.socket [
    | none ↦ (c, w)
    | some fd ↦ (record c { socket = none }, close_socket_value fd w)
  ]

  -- The destructor.
  unfoldable pub destroy : Client → World → World
  unfolding close
  destroy c w = (close c w).1

  set_option : ℕ → SocketOption → ℤ → Client → World → Bool × Client × World
  unfolding to_timeval set_last_platform_error
  set_option fd name t c w =
      let (r, w') = os.setsockopt fd name (to_timeval t) w in
      elim r [ succeeds u ↦ (true, c, w') | fails e ↦ (false, set_last_platform_error e c, w') ]

  unfoldable pub apply_configured_timeout :
      ℤ → SocketOption → Client → World → Bool × Client × World
  unfolding is_connected clear_last_error set_option
  apply_configured_timeout t name c w =
      let c' = clear_last_error c in
      elim c'.socket [ none ↦ (true, c', w) | some fd ↦ set_option fd name t c' w ]

  unfoldable pub set_send_timeout : ℤ → Client → World → Bool × Client × World
  unfolding apply_configured_timeout sanitize_timeout
  set_send_timeout t c w =
      let c' = record c { send_timeout = sanitize_timeout t } in
      apply_configured_timeout c'.send_timeout so_sndtimeo c' w

  unfoldable pub set_receive_timeout : ℤ → Client → World → Bool × Client × World
  unfolding apply_configured_timeout sanitize_timeout
  set_receive_timeout t c w =
      let c' = record c { receive_timeout = sanitize_timeout t } in
      apply_configured_timeout c'.receive_timeout so_rcvtimeo c' w

  -- On Linux, where `SO_NOSIGPIPE` is not defined.
  unfoldable pub configure_socket : ℕ → Client → World → Bool × Client × World
  unfolding set_option
  configure_socket fd c w =
      let (sending, c', w') = set_option fd so_sndtimeo c.send_timeout c w in
      if sending then set_option fd so_rcvtimeo c'.receive_timeout c' w' else (false, c', w')

  -- One address of the list: whether it is connected.
  unfoldable pub try_address : Addr → Client → World → Bool × Client × World
  unfolding configure_socket close_socket_value set_last_platform_error clear_last_error
  try_address a c w =
      let (r, w₁) = os.socket a w in
      elim r [
        | fails e ↦ (false, set_last_platform_error e c, w₁)
        | succeeds fd ↦
            let (configured, c₂, w₂) = configure_socket fd c w₁ in
            if not configured
            then (false, c₂, close_socket_value fd w₂)
            else (let (connected, w₃) = os.connect fd a w₂ in
                elim connected [
                  | succeeds u ↦ (true, clear_last_error (record c₂ { socket = some fd }), w₃)
                  | fails e ↦ (false, set_last_platform_error e c₂, close_socket_value fd w₃)
                ])
      ]

  -- The loop over the addresses.
  unfoldable pub connect_loop : List Addr → Client → World → Bool × Client × World
  unfolding try_address
  connect_loop [] c w = (false, c, w)
  connect_loop (a ∷ more) c w =
      let (connected, c', w') = try_address a c w in
      let rest = connect_loop more c' w' in if connected then (true, c', w') else rest

  -- `getaddrinfo` returns 0 with a list of addresses, or another number.
  unfoldable pub connect_found : List Addr × ℤ → Client → World → Bool × Client × World
  unfolding set_last_address_info_error connect_loop
  connect_found (addresses, pos zero) c w = connect_loop addresses c w
  connect_found (addresses, result) c w = (false, set_last_address_info_error result c, w)

  unfoldable pub connect : Client → World → Bool × Client × World
  unfolding close clear_last_error connect_found
  connect c w =
      let (c₁, w₁) = close c w in
      let c₂ = clear_last_error c₁ in
      let (found, w₂) = os.getaddrinfo c₂.server_address c₂.port w₁ in connect_found found c₂ w₂

  unfoldable pub reconnect : Client → World → Bool × Client × World
  unfolding close connect
  reconnect c w = let (c', w') = close c w in connect c' w'

  unfoldable pub shutdown_write : Client → World → Bool × Client × World
  unfolding clear_last_error set_last_platform_error
  shutdown_write c w = elim c.socket [
    | none ↦ (false, c, w)
    | some fd ↦
        let (r, w') = os.shutdown_write fd w in
        elim r [
          | succeeds u ↦ (true, clear_last_error c, w')
          | fails e ↦ (false, set_last_platform_error e (clear_last_error c), w')
        ]
  ]
