-- ===== src/Grpc/Draining.antt =====
-- cGenericGrpcWorker.h: a queue that is shut down is given nothing more.
use thread_component.Prelude.{ℕ, ◌≤◌, ◌≡◌, sym, ap, ◌∙◌, subst, Bool, true, false, some, arith}
use thread_component.Grpc.Call.{
  RpcStatus, create, process, finish, Worker, Event, timeout, shutdown, got, Outcome, find_call,
  delete, proceed, deliver,
}
use thread_component.Grpc.System.{in_tags, IsGiven, IsEvent, Reach, total}
use thread_component.Grpc.Tags.{in_tags-remove}
use thread_component.Grpc.Ownership.{
  Reach-IsOwned, IsGiven-pending, found, handled, deliver-found, some-inj,
}
use thread_component.Grpc.Listener.{created_none, Reach-IsListening, is_created}

module _ {Reply : Type 0} where
  handled-drains :
      (tag : ℕ) (ok : Bool) (reply : Reply) (o : Outcome) (st : RpcStatus) (w : Worker Reply)
      → find_call tag w.calls ≡ some st
      → IsGiven tag ok (some st) w
      → total is_created w.calls ≡ 0
      → w.queue_down ≡ true
      → (t : ℕ) → in_tags t (handled tag ok reply o st w).pending ≤ in_tags t w.pending
  unfolding proceed delete
  handled-drains tag ok reply o create w e g created q t =
      absurd (created_none tag w.calls e created)
  handled-drains tag true reply o process w e (_, up) created q t = absurd (ground (arith, q, up))
  handled-drains tag false reply o process w e (p, _) created q t =
      omega (arith, in_tags-remove t tag w.pending p)
  handled-drains tag true reply o finish w e p created q t =
      omega (arith, in_tags-remove t tag w.pending p)
  handled-drains tag false reply o finish w e p created q t =
      omega (arith, in_tags-remove t tag w.pending p)

  -- Once the queue is shut down, no step of the loop hands it an operation: it only drains.
  pub shut_queue_drains :
      (w w' : Worker Reply) (e : Event Reply)
      → Reach w
      → w.queue_down ≡ true
      → IsEvent e w
      → deliver e w ≡ some w'
      → (t : ℕ) → in_tags t w'.pending ≤ in_tags t w.pending
  unfolding deliver
  shut_queue_drains w w' timeout r q i d t =
      ground (arith, ap (λ x. in_tags t x.pending) (some-inj _ _ d))
  shut_queue_drains w w' shutdown r q i d t =
      ground (arith, ap (λ x. in_tags t x.pending) (some-inj _ _ d))
  shut_queue_drains w w' (got tag ok reply o) r q i d t =
      let p = IsGiven-pending tag ok (find_call tag w.calls) w i in
      let (st, f) = found tag w (Reach-IsOwned r) p in
      let g = subst (λ x. IsGiven tag ok x w) f i in
      let less = handled-drains tag ok reply o st w f g (Reach-IsListening r).0.0 q t in
      let e = some-inj _ _ (sym (deliver-found tag ok reply o st w f) ∙ d) in
      omega (arith, less, ap (λ (x : Worker Reply). in_tags t x.pending) e)
