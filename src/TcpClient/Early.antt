-- ===== src/TcpClient/Early.antt =====
-- cTCPClient_V2.h: a buffer that is sent while the worker starts.
use thread_component.Prelude.{◌≡◌, refl, ap, true, List, [], ◌∷◌, ℕ}
use thread_component.BaseWorker.{Worker, starting, is_running, get_state}
use thread_component.TcpClient.Client.{
  clearing, Choice, send, clear_outbound_queue, phase_step, phase_move,
}
use thread_component.TcpClient.System.{System, Reach}
use thread_component.TcpClient.Moves.{is_clearing}
use thread_component.TcpClient.Writer.{rest_of}
use thread_component.TcpClient.Wire.{Reach-IsOrdered}

starting-is_running : {E : Type 0} (w : Worker E) → w.state ≡ starting → is_running w ≡ true
unfolding is_running get_state
starting-is_running w e = rw e refl

-- A worker that starts is running to `send`, which takes a buffer and answers true; where this comes
-- before `preRun` clears the queue, the buffer is lost: in every state that is reached there, after
-- `send` and that step of `preRun` the queue is empty, the writer holds nothing, and nothing was sent.
pub early_send_is_lost :
    {E : Type 0} (w : Worker E) (s : System) (x : ℕ) (bytes : List ℕ) (c : Choice)
    → Reach s
    → w.state ≡ starting
    → s.client.phase ≡ clearing
    → let (answer, sent) = send (is_running w) (x ∷ bytes) s.client in
      let t = phase_step c sent in
      (answer ≡ true) × ((t.queue ≡ []) × ((t.wire ≡ []) × (rest_of t.writer ≡ [])))
unfolding send phase_step phase_move clear_outbound_queue
early_send_is_lost w s x bytes c r up at =
    let fresh = (Reach-IsOrdered r).1 (ap is_clearing at) in
    rw (starting-is_running w up, at) (refl, (refl, (fresh.0, ap rest_of fresh.1)))
