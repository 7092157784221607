-- ===== src/TcpClient/Wire.antt =====
-- cTCPClient_V2.h: what is on the wire, of what was sent.
use thread_component.Prelude.{
  ℕ, ◌≡◌, refl, sym, ap, ◌∙◌, subst, false, List, [], ◌∷◌, ◌++◌, arith, append-nil,
}
use thread_component.TcpClient.Client.{
  waiting, broken, send, clear_outbound_queue, phase_step, writer_step, reader_step,
}
use thread_component.TcpClient.System.{
  System, Step, sends, stops, closes, clears, runs, writes, reads, Reach, here, next,
}
use thread_component.TcpClient.Writer.{
  flatten, rest_of, IsFed, IsOrderedAt, IsOrdered, writer_move-IsOrdered,
}
use thread_component.TcpClient.Moves.{
  is_clearing, IsUnwritten, push-IsOrdered, stop-IsOrdered, close-IsOrdered, clears-IsOrdered,
  phase_move-leaves_clearing, writer_move-phase, reader_move-phase, reader_move-IsOrdered,
  phase_move-IsOrdered, close-IsUnwritten, has_threads-clearing,
}

Step-IsOrdered :
    {s t : System}
    → Step s t
    → IsOrdered s.client s.pushed × IsUnwritten s.client
    → IsOrdered t.client t.pushed × IsUnwritten t.client
unfolding send clear_outbound_queue writer_step phase_step reader_step
Step-IsOrdered {s} (sends [] e l) (h, u) = absurd (ground (arith, e))
Step-IsOrdered {s} (sends (x ∷ bytes) e l) (h, u) =
    (push-IsOrdered s.client (x ∷ bytes) s.pushed l h, u)
Step-IsOrdered {s} stops (h, u) =
    let c = s.client in (stop-IsOrdered c.writer c.stop_requested c.queue c.wire s.pushed h, u)
Step-IsOrdered {s} (closes e) (h, u) =
    (close-IsOrdered s.client s.pushed h, close-IsUnwritten s.client u)
Step-IsOrdered {s} (clears e l) (h, u) = (clears-IsOrdered s.client s.pushed e l h, u)
Step-IsOrdered {s} (runs c) (h, u) = (
  phase_move-IsOrdered c s.client.phase s.client s.pushed u h,
  λ x. absurd (ground (arith, x, phase_move-leaves_clearing c s.client.phase s.client refl)),
)
Step-IsOrdered {s} (writes c p) (h, u) = (
  writer_move-IsOrdered c s.client.writer s.client s.pushed refl h,
  λ x. absurd (
      ground (
        arith,
        x,
        ap is_clearing (writer_move-phase c s.client.writer s.client),
        has_threads-clearing s.client.phase p,
      )),
)
Step-IsOrdered {s} (reads c throws p) (h, u) = (
  reader_move-IsOrdered c throws s.client.reader s.client s.pushed refl h,
  λ x. absurd (
      ground (
        arith,
        x,
        ap is_clearing (reader_move-phase c throws s.client.reader s.client),
        has_threads-clearing s.client.phase p,
      )),
)

pub Reach-IsOrdered : {s : System} → Reach s → IsOrdered s.client s.pushed × IsUnwritten s.client
Reach-IsOrdered here = (((λ _. refl, ([], refl)), tt), λ _. (refl, refl))
Reach-IsOrdered (next r st) = Step-IsOrdered st (Reach-IsOrdered r)

-- In every state that is reached, the bytes that `send` of the operating system has taken are a
-- prefix of the buffers pushed since `preRun`, one after the other: nothing is sent twice, out of
-- order or with a gap, whatever the threads, the partial sends and the stops do.
pub wire_is_prefix :
    (s : System) → Reach s → (later : List ℕ) × (flatten s.pushed ≡ s.client.wire ++ later)
wire_is_prefix s r =
    let ((_, (later, b)), _) = (Reach-IsOrdered r).0 in (rest_of s.client.writer ++ later, b)

idle_at :
    (wire : List ℕ) (pushed : List (List ℕ))
    → IsOrderedAt waiting false [] wire pushed
    → wire ≡ flatten pushed
idle_at wire pushed ((a, _), _) = sym (a refl ∙ append-nil wire)

-- While no stop is requested, and the writer is back in its wait with the queue empty, all that was
-- pushed since `preRun` is on the wire.
pub idle_wrote_all :
    (s : System)
    → Reach s
    → s.client.stop_requested ≡ false
    → s.client.writer ≡ waiting
    → s.client.queue ≡ []
    → s.client.wire ≡ flatten s.pushed
idle_wrote_all s r e w q =
    let c = s.client in
    let h = (Reach-IsOrdered r).0 in
    idle_at c.wire s.pushed (
      subst (λ pc. IsOrderedAt pc false [] c.wire s.pushed) w
        (subst (λ b. IsOrderedAt c.writer b [] c.wire s.pushed) e
          (subst (λ xs. IsOrderedAt c.writer c.stop_requested xs c.wire s.pushed) q h)))

-- The writer never asks an empty queue for its front.
pub writer_never_breaks : (s : System) → Reach s → ¬ (s.client.writer ≡ broken)
writer_never_breaks s r e =
    subst (λ pc. IsFed pc s.client.stop_requested s.client.queue) e (Reach-IsOrdered r).0.1
