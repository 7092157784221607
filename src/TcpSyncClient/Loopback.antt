-- ===== src/TcpSyncClient/Loopback.antt =====
-- A small operating system to run the client on: one stream each way, an address 0 that refuses and
-- an address 1 that accepts, `send` by at most two bytes and `recv` by at most three, and signals
-- that interrupt the first calls.
use thread_component.Prelude.{
  ℕ, zero, suc, ◌≤◌, ◌<◌, ◌≡◌, refl, sym, ap, ◌∙◌, min, Bool, true, false, not, ◌&&◌, ◌||◌, [], ◌∷◌,
  ◌++◌, arith, ◌==◌, length, take, drop,
}
use thread_component.Prelude.Int.{pos}
use thread_component.TcpSyncClient.Closing.{Descriptors}
use thread_component.TcpSyncClient.Os.Laws.{Laws}
use thread_component.TcpSyncClient.Os.{
  Os, Buffer, Outcome, succeeds, fails, SendOutcome, took, send_fails, RecvOutcome, got,
  end_of_stream, recv_fails,
}

pub record World : Type 0 where
  pub opened : ℕ → Bool
  pub next_fd : ℕ
  pub signals : ℕ
  pub incoming : Buffer
  pub outgoing : Buffer
  pub consumed : Buffer

abbrev socket_in : Bool → World → Outcome ℕ × World
socket_in true w = (fails 24, w)
socket_in false w = (
  succeeds w.next_fd,
  record w { opened = λ x. x == w.next_fd || w.opened x; next_fd = suc w.next_fd },
)

abbrev connect_to : ℕ → World → Outcome (Unit {0}) × World
connect_to zero w = (fails 111, w)
connect_to (suc n) w = (succeeds tt, w)

abbrev send_in : ℕ → Buffer → World → SendOutcome × World
send_in zero bytes w = (
  took (min 2 (length bytes)) 0,
  record w { outgoing = w.outgoing ++ take (min 2 (length bytes)) bytes },
)
send_in (suc n) bytes w = (send_fails 4, record w { signals = n })

abbrev recv_in : ℕ → Buffer → World → RecvOutcome × World
recv_in zero [] w = (end_of_stream, w)
recv_in zero (x ∷ chunk) w = (
  got (x ∷ chunk),
  record w { incoming = drop (length (x ∷ chunk)) w.incoming; consumed = w.consumed ++ x ∷ chunk },
)
recv_in (suc n) chunk w = (recv_fails 4, record w { signals = n })

abbrev pub loopback : Os
loopback = record {
  World = World;
  Addr = ℕ;
  getaddrinfo = λ name port w. ((0 ∷ 1 ∷ [], pos 0), w);
  socket = λ a w. socket_in (w.opened w.next_fd) w;
  setsockopt = λ fd name t w. (succeeds tt, w);
  connect = λ fd a w. connect_to a w;
  send = λ fd bytes w. send_in w.signals bytes w;
  recv = λ fd max_bytes w. recv_in w.signals (take (min 3 max_bytes) w.incoming) w;
  shutdown_write = λ fd w. (succeeds tt, w);
  shutdown_both = λ fd w. w;
  close = λ fd w. record w { opened = λ x. not (x == fd) && w.opened x };
}

pub send_in-took :
    (s : ℕ) (bytes : Buffer) (w : World) (n e : ℕ)
    → w.signals ≡ s
    → (send_in s bytes w).0 ≡ took n e
    → (n ≤ length bytes)
      × ((send_in s bytes w).1.outgoing ≡ w.outgoing ++ take n bytes)
      × ((send_in s bytes w).1.signals ≤ w.signals)
send_in-took zero bytes w n e h k =
    let m : min 2 (length bytes) ≡ n = cc in
    (omega (arith, m), ap (λ i. w.outgoing ++ take i bytes) m, omega arith)
send_in-took (suc s) bytes w n e h k = absurd cc

pub send_in-fails :
    (s : ℕ) (bytes : Buffer) (w : World) (e : ℕ)
    → w.signals ≡ s
    → (send_in s bytes w).0 ≡ send_fails e
    → ((send_in s bytes w).1.outgoing ≡ w.outgoing) × ((send_in s bytes w).1.signals < w.signals)
send_in-fails zero bytes w e h k = absurd cc
send_in-fails (suc s) bytes w e h k = (refl, omega (arith, h))

pub recv_in-got :
    (s : ℕ) (chunk : Buffer) (w : World) (bytes : Buffer)
    → w.signals ≡ s
    → (recv_in s chunk w).0 ≡ got bytes
    → (0 < length bytes)
      × (chunk ≡ bytes)
      × ((recv_in s chunk w).1.consumed ≡ w.consumed ++ bytes)
      × ((recv_in s chunk w).1.signals ≤ w.signals)
recv_in-got zero [] w bytes h k = absurd cc
recv_in-got zero (x ∷ chunk) w bytes h k =
    let m : x ∷ chunk ≡ bytes = cc in
    (rw (← m) (omega arith), m, ap (λ l. w.consumed ++ l) m, omega arith)
recv_in-got (suc s) chunk w bytes h k = absurd cc

pub recv_in-ended :
    (s : ℕ) (chunk : Buffer) (w : World)
    → (recv_in s chunk w).0 ≡ end_of_stream
    → (recv_in s chunk w).1.consumed ≡ w.consumed
recv_in-ended zero [] w k = refl
recv_in-ended zero (x ∷ chunk) w k = absurd cc
recv_in-ended (suc s) chunk w k = refl

pub recv_in-fails :
    (s : ℕ) (chunk : Buffer) (w : World) (e : ℕ)
    → w.signals ≡ s
    → (recv_in s chunk w).0 ≡ recv_fails e
    → ((recv_in s chunk w).1.consumed ≡ w.consumed) × ((recv_in s chunk w).1.signals < w.signals)
recv_in-fails zero [] w e h k = absurd cc
recv_in-fails zero (x ∷ chunk) w e h k = absurd cc
recv_in-fails (suc s) chunk w e h k = (refl, omega (arith, h))

pub length-take-le : (n m : ℕ) (l : Buffer) → n ≤ m → length (take n l) ≤ m
length-take-le zero m l h = omega arith
length-take-le (suc n) m [] h = omega arith
length-take-le (suc n) (suc m) (x ∷ l) h = omega (arith, length-take-le n m l (omega arith))
length-take-le (suc n) zero (x ∷ l) h = absurd (omega arith)

unfoldable pub loopback_laws : Laws loopback
loopback_laws = record {
  sent = λ w fd. w.outgoing;
  received = λ w fd. w.consumed;
  pending = λ w. w.signals;
  send_took = λ fd bytes w n e h. send_in-took w.signals bytes w n e refl h;
  send_failed = λ fd bytes w e h. (send_in-fails w.signals bytes w e refl h).0;
  send_interrupted = λ fd bytes w h. (send_in-fails w.signals bytes w 4 refl h).1;
  recv_got = λ fd max_bytes w bytes h.
      let chunk = take (min 3 max_bytes) w.incoming in
      let (some', whole, stream, calm) = recv_in-got w.signals chunk w bytes refl h in
      (
        some',
        omega (
          arith,
          length-take-le (min 3 max_bytes) max_bytes w.incoming (omega arith),
          ap length whole,
        ),
        stream,
        calm,
      );
  recv_ended = λ fd max_bytes w h. recv_in-ended w.signals (take (min 3 max_bytes) w.incoming) w h;
  recv_failed = λ fd max_bytes w e h.
      (recv_in-fails w.signals (take (min 3 max_bytes) w.incoming) w e refl h).0;
  shutdown_calm = λ fd w. omega arith;
  recv_interrupted = λ fd max_bytes w h.
      (recv_in-fails w.signals (take (min 3 max_bytes) w.incoming) w 4 refl h).1;
}

socket_in-opens :
    (b : Bool) (w : World) (fd x : ℕ)
    → w.opened w.next_fd ≡ b
    → (socket_in b w).0 ≡ succeeds fd
    → (w.opened fd ≡ false) × ((socket_in b w).1.opened x ≡ (x == fd || w.opened x))
socket_in-opens true w fd x h k = absurd cc
socket_in-opens false w fd x h k =
    let m : w.next_fd ≡ fd = cc in (sym (ap w.opened m) ∙ h, ap (λ f. x == f || w.opened x) m)

socket_in-opens_none :
    (b : Bool) (w : World) (e x : ℕ)
    → (socket_in b w).0 ≡ fails e
    → (socket_in b w).1.opened x ≡ w.opened x
socket_in-opens_none true w e x k = refl
socket_in-opens_none false w e x k = absurd cc

connect_to-opened : (a x : ℕ) (w : World) → (connect_to a w).1.opened x ≡ w.opened x
connect_to-opened zero x w = refl
connect_to-opened (suc a) x w = refl

pub loopback_descriptors : Descriptors loopback
loopback_descriptors = record {
  is_open = λ w fd. w.opened fd;
  opens = λ a w fd x h. socket_in-opens (w.opened w.next_fd) w fd x refl h;
  opens_none = λ a w e x h. socket_in-opens_none (w.opened w.next_fd) w e x h;
  closes = λ fd x w. refl;
  shuts = λ fd x w. refl;
  sets = λ fd name t x w. refl;
  connects = λ fd a x w. connect_to-opened a x w;
  looks_up = λ name port x w. refl;
}

-- Two signals are to come, and five bytes.
abbrev pub quiet : World
quiet = record {
  opened = λ _. false;
  next_fd = 3;
  signals = 2;
  incoming = 65 ∷ 66 ∷ 13 ∷ 10 ∷ 67 ∷ [];
  outgoing = [];
  consumed = [];
}
