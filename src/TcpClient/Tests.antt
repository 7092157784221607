-- ===== src/TcpClient/Tests.antt =====
-- A client that has written a part of a buffer, and the theorems at concrete inputs.
use thread_component.Prelude.{◌≡◌, refl, true, List, [], ◌∷◌, ℕ, some, ◌++◌}
use thread_component.BaseWorker.{Worker, new, start_locked, is_running}
use thread_component.TcpClient.Client.{
  waiting, sending, joining_reader, send, clear_outbound_queue, phase_step, phase_move, writer_step,
  writer_move, gives, succeeds, error, takes,
}
use thread_component.TcpClient.System.{System, initial, Reach, here, next, sends, runs, writes}
use thread_component.TcpClient.Writer.{flatten, rest_of}
use thread_component.TcpClient.Wire.{wire_is_prefix, idle_wrote_all}
use thread_component.TcpClient.Early.{early_send_is_lost}

-- Two bytes of the three of the first buffer are on the wire, and a second buffer waits.
abbrev partial : System
partial = record {
  client = record initial.client {
    socket = some 3;
    phase = joining_reader;
    writer = sending (1 ∷ 2 ∷ 3 ∷ []) 2;
    wire = 1 ∷ 2 ∷ [];
    queue = (4 ∷ []) ∷ [];
  };
  pushed = (1 ∷ 2 ∷ 3 ∷ []) ∷ (4 ∷ []) ∷ [];
}

partial-reached : Reach partial
unfolding send clear_outbound_queue phase_step phase_move writer_step writer_move
partial-reached =
    let cleared = next here (runs succeeds) in
    let opened = next cleared (runs (gives 3)) in
    let converted = next opened (runs succeeds) in
    let connected = next converted (runs succeeds) in
    let started = next connected (runs succeeds) in
    let sent = next started (sends (1 ∷ 2 ∷ 3 ∷ []) refl refl) in
    let waits = next sent (writes error refl) in
    let locks = next waits (writes error refl) in
    let tests = next locks (writes error refl) in
    let pops = next tests (writes error refl) in
    let loads = next pops (writes error refl) in
    let calls = next loads (writes error refl) in
    let more = next calls (sends (4 ∷ []) refl refl) in next more (writes (takes 2) refl)

-- A client that has written one buffer, and waits.
abbrev wrote : System
wrote = record {
  client = record initial.client {
    socket = some 3;
    phase = joining_reader;
    writer = waiting;
    wire = 1 ∷ [];
  };
  pushed = (1 ∷ []) ∷ [];
}

wrote-reached : Reach wrote
unfolding send clear_outbound_queue phase_step phase_move writer_step writer_move
wrote-reached =
    let cleared = next here (runs succeeds) in
    let opened = next cleared (runs (gives 3)) in
    let converted = next opened (runs succeeds) in
    let connected = next converted (runs succeeds) in
    let started = next connected (runs succeeds) in
    let sent = next started (sends (1 ∷ []) refl refl) in
    let waits = next sent (writes error refl) in
    let locks = next waits (writes error refl) in
    let tests = next locks (writes error refl) in
    let pops = next tests (writes error refl) in
    let loads = next pops (writes error refl) in
    let calls = next loads (writes error refl) in
    let written = next calls (writes (takes 1) refl) in
    let done = next written (writes error refl) in next done (writes error refl)

wire_is_prefix_example : (later : List ℕ) × (flatten partial.pushed ≡ partial.client.wire ++ later)
wire_is_prefix_example = wire_is_prefix partial partial-reached

idle_wrote_all_example : wrote.client.wire ≡ flatten wrote.pushed
idle_wrote_all_example = idle_wrote_all wrote wrote-reached refl refl refl

-- A worker that `startThread` has just started.
abbrev started : Worker ℕ
started = (start_locked true new).0

early_send_is_lost_example :
    let (answer, sent) = send (is_running started) (1 ∷ 2 ∷ []) initial.client in
    let t = phase_step succeeds sent in
    (answer ≡ true) × ((t.queue ≡ []) × ((t.wire ≡ []) × (rest_of t.writer ≡ [])))
unfolding start_locked
early_send_is_lost_example = early_send_is_lost started initial 1 (2 ∷ []) succeeds here refl refl
