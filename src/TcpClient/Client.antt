-- ===== src/TcpClient/Client.antt =====
-- cTCPClient_V2.h: the client's state, and the steps of its threads.
use thread_component.Prelude.{
  ℕ, ◌+◌, Bool, true, false, Option, none, some, List, [], ◌∷◌, ◌++◌, ◌||◌, not, is_nil, length,
  take, drop, ltb, ◌==◌, if◌then◌else◌,
}

-- Where the worker's thread stands: in `preRun` before `clearOutboundQueue`, `socket`, `inet_pton` and
-- `connect`; before the worker's test of the flag; in `run` before the join of the reader, before
-- `requestStop`, before the join of the writer. The ends: `refused` after a failed `preRun`, `skipped`
-- where `run` was not called, and `exited` after `run`.
pub data Phase : Type 0 where
  clearing opening checking joining_reader stopping joining_writer refused skipped exited : Phase
  converting : ℕ → Phase
  connecting : ℕ → Phase

-- `writeLoop`: at the test of its loop, in the wait, with the mutex before the test of the flag, with
-- the mutex before `front`, at its end. In `sendAll`, with the payload and the bytes sent: at the test
-- of its loop, before the load, in `send`; `failing` where it returned false. `broken` is a `front` of
-- an empty queue.
pub data WriterPc : Type 0 where
  testing waiting locked popping failing ended broken : WriterPc
  sending : List ℕ → ℕ → WriterPc
  loading : List ℕ → ℕ → WriterPc
  calling : List ℕ → ℕ → ℕ → WriterPc

-- `readLoop`: before the buffer, at the test of its loop, before the load, in `recv`, before
-- `requestStop`, at its end.
pub data ReaderPc : Type 0 where
  begin testing loading failing ended : ReaderPc
  reading : ℕ → ReaderPc

-- `wire` is what `send` has taken, `received` what the callback has been given.
pub record Client : Type 0 where
  pub socket : Option ℕ
  pub stop_requested : Bool
  pub queue : List (List ℕ)
  pub phase : Phase
  pub writer : WriterPc
  pub reader : ReaderPc
  pub wire : List ℕ
  pub received : List (List ℕ)
  pub closing : List ℕ

-- `send` of a buffer. `running` is what `isRunning` returned.
unfoldable pub send : Bool → List ℕ → Client → Bool × Client
send running bytes s =
    if is_nil bytes || not running
    then (false, s)
    else (true, record s { queue = s.queue ++ bytes ∷ [] })

-- `send` of a pointer and a size; a null pointer is none, and a text is its bytes.
unfoldable pub send_bytes : Bool → Option (List ℕ) → Client → Bool × Client
unfolding send
send_bytes running none s = (false, s)
send_bytes running (some bytes) s = if is_nil bytes then (false, s) else send running bytes s

unfoldable pub clear_outbound_queue : Client → Client
clear_outbound_queue s = record s { queue = [] }

-- The exchange of the slot; what it held is then to be closed.
unfoldable pub close_socket : Client → Client
close_socket s = elim s.socket [
  | none ↦ s
  | some fd ↦ record s { socket = none; closing = s.closing ++ fd ∷ [] }
]

-- What the environment decides: the result of a call.
pub data Choice : Type 0 where
  gives : ℕ → Choice
  succeeds fails fails_eintr : Choice

-- A step of `preRun`, or of `run`, whose joins wait for the threads.
unfoldable pub phase_move : Choice → Phase → Client → Client
unfolding clear_outbound_queue close_socket
phase_move c clearing s = record (clear_outbound_queue s) { phase = opening }
phase_move (gives fd) opening s = record s { socket = some fd; phase = converting fd }
phase_move _ opening s = record s { phase = refused }
phase_move succeeds (converting fd) s = record s { phase = connecting fd }
phase_move _ (converting fd) s = record (close_socket s) { phase = refused }
phase_move succeeds (connecting fd) s = record s { phase = checking }
phase_move _ (connecting fd) s = record (close_socket s) { phase = refused }
phase_move c checking s = record s { phase = if s.stop_requested then skipped else joining_reader }
phase_move c joining_reader s = elim s.reader [ ended ↦ record s { phase = stopping } | _ ↦ s ]
phase_move c stopping s = record s { stop_requested = true; phase = joining_writer }
phase_move c joining_writer s = elim s.writer [ ended ↦ record s { phase = exited } | _ ↦ s ]
phase_move c refused s = s
phase_move c skipped s = s
phase_move c exited s = s

-- What a step of the writer depends on: `send` takes so many bytes, is interrupted or
-- fails; none taken is a failure.
pub data SendResult : Type 0 where
  takes : ℕ → SendResult
  interrupted error : SendResult

unfoldable pub writer_move : SendResult → WriterPc → Client → Client
writer_move c testing s = record s { writer = if s.stop_requested then ended else waiting }
writer_move c waiting s = record s {
  writer = if s.stop_requested || not (is_nil s.queue) then locked else waiting;
}
writer_move c locked s = record s { writer = if s.stop_requested then ended else popping }
writer_move c popping s = elim s.queue [
  | [] ↦ record s { writer = broken }
  | payload ∷ rest ↦ record s { queue = rest; writer = sending payload 0 }
]
writer_move c (sending payload total) s = record s {
  writer = if ltb total (length payload) then loading payload total else testing;
}
writer_move c (loading payload total) s = record s {
  writer = elim s.socket [ none ↦ failing | some fd ↦ calling payload total fd ];
}
writer_move (takes n) (calling payload total fd) s =
    if n == 0 then record s { writer = failing } else record s {
      wire = s.wire ++ take n (drop total payload);
      writer = sending payload (total + n);
    }
writer_move interrupted (calling payload total fd) s = record s { writer = sending payload total }
writer_move error (calling payload total fd) s = record s { writer = failing }
writer_move c failing s = record s { stop_requested = true; writer = ended }
writer_move c ended s = s
writer_move c broken s = s

-- What a step of the reader depends on: `recv` gives some bytes, is interrupted, or ends; `throws`
-- tells of the buffer or of the callback.
pub data RecvResult : Type 0 where
  got : List ℕ → RecvResult
  interrupted finished : RecvResult

unfoldable pub reader_move : RecvResult → Bool → ReaderPc → Client → Client
reader_move c throws begin s = record s { reader = if throws then failing else testing }
reader_move c throws testing s = record s { reader = if s.stop_requested then ended else loading }
reader_move c throws loading s = record s {
  reader = elim s.socket [ none ↦ ended | some fd ↦ reading fd ];
}
reader_move (got bytes) throws (reading fd) s = record s {
  received = s.received ++ bytes ∷ [];
  reader = if throws then failing else testing;
}
reader_move interrupted throws (reading fd) s = record s { reader = testing }
reader_move finished throws (reading fd) s = record s { reader = failing }
reader_move c throws failing s = record s { stop_requested = true; reader = ended }
reader_move c throws ended s = s

unfoldable pub phase_step : Choice → Client → Client
unfolding phase_move
phase_step c s = phase_move c s.phase s

unfoldable pub writer_step : SendResult → Client → Client
unfolding writer_move
writer_step c s = writer_move c s.writer s

unfoldable pub reader_step : RecvResult → Bool → Client → Client
unfolding reader_move
reader_step c throws s = reader_move c throws s.reader s
