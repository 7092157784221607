-- ===== src/Grpc/Listener.antt =====
-- cGenericGrpcWorker.h: while no stop is requested there is a listener.
use thread_component.Prelude.{
  ℕ, ◌+◌, ◌≡◌, refl, sym, ◌∙◌, subst, Bool, true, false, some, List, arith, if◌then◌else◌,
}
use thread_component.Grpc.Call.{
  RpcStatus, create, process, finish, Call, Worker, timeout, shutdown, got, Outcome, find_call,
  set_status, submit, new_call, delete, proceed, run_start, deliver,
}
use thread_component.Grpc.System.{
  IsGiven, Step, stops, shuts_server, shuts_queue, runs, Reach, here, next, total, is_answered,
  answering,
}
use thread_component.Grpc.Tags.{total-set_status, total-delete_call}
use thread_component.Grpc.Ownership.{
  Reach-IsOwned, IsGiven-pending, found, handled, deliver-found, taken, some-inj,
}

-- A call that waits for its request.
abbrev pub is_listener : RpcStatus → ℕ
is_listener process = 1
is_listener _ = 0

abbrev pub is_created : RpcStatus → ℕ
is_created create = 1
is_created _ = 0

abbrev pub listeners : List Call → ℕ
listeners xs = total is_listener xs

-- The calls that an event adds, counted.
abbrev gain : (RpcStatus → ℕ) → Bool → RpcStatus → Bool → ℕ
gain f true process stop = f finish + (if stop then 0 else f process)
gain f ok st stop = 0

pub created_none :
    (tag : ℕ) (xs : List Call) → find_call tag xs ≡ some create → ¬ (total is_created xs ≡ 0)
created_none tag xs e h = absurd (omega (arith, h, total-delete_call is_created tag create xs e))

-- Of the flags `stop_requested`, `server_down` and `queue_down`: no object is left as it was made; one
-- object waits for a request as long as no stop is requested;
-- the server is shut down after the flag is set; the queue, when nothing is being answered.
abbrev pub IsListeningWith : Bool × Bool × Bool → List Call → Type 0
IsListeningWith fs xs =
    ((total is_created xs ≡ 0) × (fs.0 ≡ false → listeners xs ≡ 1))
    × ((fs.1 ≡ true → fs.0 ≡ true) × (fs.2 ≡ true → (answering xs ≡ 0) × (fs.0 ≡ true)))

module _ {Reply : Type 0} where
  abbrev pub flags : Worker Reply → Bool × Bool × Bool
  flags w = (w.stop_requested, w.server_down, w.queue_down)

  abbrev pub IsListening : Worker Reply → Type 0
  IsListening w = IsListeningWith (flags w) w.calls

  new_call-total :
      (f : RpcStatus → ℕ) (w : Worker Reply)
      → total f (new_call w).calls ≡ total f w.calls + f process
  unfolding new_call submit set_status
  new_call-total f w = ground arith

  new_call-find :
      (tag : ℕ) (w : Worker Reply)
      → find_call tag w.calls ≡ some process
      → find_call tag (new_call w).calls ≡ some process
  unfolding new_call submit set_status find_call
  new_call-find tag w f = ground (arith, f)

  answer-total :
      (f : RpcStatus → ℕ) (tag : ℕ) (stop : Bool) (w : Worker Reply)
      → find_call tag w.calls ≡ some process
      → total f (set_status tag finish (if stop then w else new_call w).calls) + f process
        ≡ total f w.calls + gain f true process stop
  answer-total f tag true w e = omega (arith, total-set_status f tag process finish w.calls e)
  answer-total f tag false w e = omega (
    arith,
    total-set_status f tag process finish (new_call w).calls (new_call-find tag w e),
    new_call-total f w,
  )

  handled-total :
      (f : RpcStatus → ℕ) (tag : ℕ) (ok : Bool) (reply : Reply) (o : Outcome) (st : RpcStatus)
      (w : Worker Reply)
      → find_call tag w.calls ≡ some st
      → total is_created w.calls ≡ 0
      → total f (handled tag ok reply o st w).calls + f st
        ≡ total f w.calls + gain f ok st w.stop_requested
  unfolding proceed submit delete
  handled-total f tag ok reply o create w e h = absurd (created_none tag w.calls e h)
  handled-total f tag true reply o process w e h =
      answer-total f tag w.stop_requested (taken tag w) e
  handled-total f tag true reply o finish w e h =
      omega (arith, total-delete_call f tag finish w.calls e)
  handled-total f tag false reply o process w e h =
      omega (arith, total-delete_call f tag process w.calls e)
  handled-total f tag false reply o finish w e h =
      omega (arith, total-delete_call f tag finish w.calls e)

  handled-flags :
      (tag : ℕ) (ok : Bool) (reply : Reply) (o : Outcome) (st : RpcStatus) (w : Worker Reply)
      → flags (handled tag ok reply o st w) ≡ flags w
  unfolding proceed submit delete new_call
  handled-flags tag false reply o st w = refl
  handled-flags tag true reply o create w = refl
  handled-flags tag true reply o finish w = refl
  handled-flags tag true reply o process w =
      elim w.stop_requested
        as (λ b. flags (if b then taken tag w else new_call (taken tag w)) ≡ flags w) [
          | true ↦ refl
          | false ↦ refl
        ]

  handled-IsListeningWith :
      (tag : ℕ) (ok : Bool) (reply : Reply) (o : Outcome) (st : RpcStatus) (w : Worker Reply)
      → find_call tag w.calls ≡ some st
      → IsGiven tag ok (some st) w
      → IsListening w
      → IsListeningWith (flags w) (handled tag ok reply o st w).calls
  handled-IsListeningWith tag ok reply o create w e g ((created, _), _) =
      absurd (created_none tag w.calls e created)
  handled-IsListeningWith tag true reply o process w e (_, up) ((created, one), (down, quiet)) =
      let counts = λ (f : RpcStatus → ℕ). handled-total f tag true reply o process w e created in
      (
        (
          ground (arith, counts is_created, created),
          λ s. ground (arith, counts is_listener, one s, s),
        ),
        (down, λ q. absurd (ground (arith, q, up))),
      )
  handled-IsListeningWith tag false reply o process w e (_, d) ((created, one), (down, quiet)) =
      let counts = λ (f : RpcStatus → ℕ). handled-total f tag false reply o process w e created in
      (
        (ground (arith, counts is_created, created), λ s. absurd (ground (arith, down d, s))),
        (down, λ q. (ground (arith, counts is_answered, (quiet q).0), (quiet q).1)),
      )
  handled-IsListeningWith tag true reply o finish w e g ((created, one), (down, quiet)) =
      let counts = λ (f : RpcStatus → ℕ). handled-total f tag true reply o finish w e created in
      (
        (
          ground (arith, counts is_created, created),
          λ s. ground (arith, counts is_listener, one s),
        ),
        (down, λ q. (ground (arith, counts is_answered, (quiet q).0), (quiet q).1)),
      )
  handled-IsListeningWith tag false reply o finish w e g ((created, one), (down, quiet)) =
      let counts = λ (f : RpcStatus → ℕ). handled-total f tag false reply o finish w e created in
      (
        (
          ground (arith, counts is_created, created),
          λ s. ground (arith, counts is_listener, one s),
        ),
        (down, λ q. (ground (arith, counts is_answered, (quiet q).0), (quiet q).1)),
      )

  handled-IsListening :
      (tag : ℕ) (ok : Bool) (reply : Reply) (o : Outcome) (st : RpcStatus) (w : Worker Reply)
      → find_call tag w.calls ≡ some st
      → IsGiven tag ok (some st) w
      → IsListening w
      → IsListening (handled tag ok reply o st w)
  handled-IsListening tag ok reply o st w e g h =
      subst (λ fs. IsListeningWith fs (handled tag ok reply o st w).calls)
        (sym (handled-flags tag ok reply o st w))
        (handled-IsListeningWith tag ok reply o st w e g h)

  Step-IsListening : {w w' : Worker Reply} → Reach w → Step w w' → IsListening w → IsListening w'
  unfolding deliver
  Step-IsListening r stops ((created, one), (down, quiet)) =
      ((created, λ s. absurd (ground (arith, s))), (λ _. refl, λ q. ((quiet q).0, refl)))
  Step-IsListening r (shuts_server s) (h, (down, quiet)) = (h, (λ _. s, quiet))
  Step-IsListening r (shuts_queue s none_answered) (h, (down, quiet)) =
      (h, (down, λ _. (none_answered, down s)))
  Step-IsListening r (runs timeout w' l i d) h = subst IsListening (some-inj _ _ d) h
  Step-IsListening r (runs shutdown w' l i d) h = subst IsListening (some-inj _ _ d) h
  Step-IsListening {w} r (runs (got tag ok reply o) w' l i d) h =
      let p = IsGiven-pending tag ok (find_call tag w.calls) w i in
      let (st, f) = found tag w (Reach-IsOwned r) p in
      let g = subst (λ x. IsGiven tag ok x w) f i in
      subst IsListening (some-inj _ _ (sym (deliver-found tag ok reply o st w f) ∙ d))
        (handled-IsListening tag ok reply o st w f g h)

  pub Reach-IsListening : {w : Worker Reply} → Reach w → IsListening w
  unfolding run_start new_call submit set_status
  Reach-IsListening here = ((refl, λ _. refl), (λ e. e, λ q. absurd (ground (arith, q))))
  Reach-IsListening (next r st) = Step-IsListening r st (Reach-IsListening r)

  -- In every state of the loop that is reached and in which no stop is requested, one object waits
  -- for the next request.
  pub listener_armed :
      (w : Worker Reply) → Reach w → w.stop_requested ≡ false → listeners w.calls ≡ 1
  listener_armed w r s = (Reach-IsListening r).0.1 s
