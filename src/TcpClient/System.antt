-- ===== src/TcpClient/System.antt =====
-- cTCPClient_V2.h: the steps of the client's threads and of its callers, in any order.
use thread_component.Prelude.{ℕ, ◌≡◌, Bool, true, false, none, List, [], ◌∷◌, ◌++◌, is_nil}
use thread_component.TcpClient.Client.{
  Client, Phase, clearing, joining_reader, stopping, joining_writer, WriterPc, locked, popping,
  testing, ReaderPc, Choice, SendResult, RecvResult, send, clear_outbound_queue, close_socket,
  phase_step, writer_step, reader_step,
}

-- `pushed` are the buffers that `send` has pushed since `preRun` cleared the queue.
pub record System : Type 0 where
  pub client : Client
  pub pushed : List (List ℕ)

-- When `startThread` has started the worker.
abbrev pub initial : System
initial = record {
  client = record {
    socket = none;
    stop_requested = false;
    queue = [];
    phase = clearing;
    writer = testing;
    reader = ReaderPc.begin;
    wire = [];
    received = [];
    closing = [];
  };
  pushed = [];
}

abbrev pub has_threads : Phase → Bool
has_threads joining_reader = true
has_threads stopping = true
has_threads joining_writer = true
has_threads _ = false

-- Whether the writer has the mutex.
abbrev pub is_locking : WriterPc → Bool
is_locking locked = true
is_locking popping = true
is_locking _ = false

abbrev pub cleared : Phase → List (List ℕ) → List (List ℕ)
cleared clearing pushed = []
cleared _ pushed = pushed

-- A caller's `send` pushes some time after its test of `isRunning`; `stopTriggered`, which any thread
-- runs, comes after the flag is set.
pub data Step (s : System) : System → Type 0 where
  sends :
      (bytes : List ℕ)
      → is_nil bytes ≡ false
      → is_locking s.client.writer ≡ false
      → Step s (record { client = (send true bytes s.client).1; pushed = s.pushed ++ bytes ∷ [] })
  stops : Step s (record s { client = record s.client { stop_requested = true } })
  closes : s.client.stop_requested ≡ true → Step s (record s { client = close_socket s.client })
  clears :
      s.client.stop_requested ≡ true
      → is_locking s.client.writer ≡ false
      → Step s (record s { client = clear_outbound_queue s.client })
  runs :
      (c : Choice)
      → Step s (record { client = phase_step c s.client; pushed = cleared s.client.phase s.pushed })
  writes :
      (c : SendResult)
      → has_threads s.client.phase ≡ true
      → Step s (record s { client = writer_step c s.client })
  reads :
      (c : RecvResult) (throws : Bool)
      → has_threads s.client.phase ≡ true
      → Step s (record s { client = reader_step c throws s.client })

pub data Reach : System → Type 0 where
  here : Reach initial
  next : {s t : System} → Reach s → Step s t → Reach t
