-- ===== src/Grpc/Ownership.antt =====
-- cGenericGrpcWorker.h: each object of a call has one operation pending, whatever happens.
use thread_component.Prelude.{
  ℕ, suc, ◌+◌, ◌≤◌, ◌≡◌, refl, sym, ap, ◌∙◌, subst, Bool, true, false, Option, none, some, List, [],
  ◌∷◌, arith, if◌then◌else◌, Option-cases, inl, inr,
}
use thread_component.Grpc.Call.{
  RpcStatus, create, process, finish, Call, Worker, Event, timeout, shutdown, got, Outcome,
  find_call, remove, submit, new_call, delete, proceed, run_start, deliver,
}
use thread_component.Grpc.System.{
  in_tags, initial, IsGiven, IsEvent, stops, shuts_server, shuts_queue, runs, Reach, here, next,
}
use thread_component.Grpc.Tags.{
  is, in_calls, in_tags-append, in_tags-remove, in_calls-set_status, in_calls-delete_call,
  find_call-live,
}

none_left : (xs : List Call) → ((t : ℕ) → in_calls t xs ≡ 0) → xs ≡ []
none_left [] h = refl
none_left (x ∷ xs) h = absurd (ground (arith, h x.tag))

module _ {Reply : Type 0} where
  -- Each object has one pending operation, but for those that `extra` counts; no two have one address,
  -- and none has an address that is still to come.
  abbrev pub IsOwned : (ℕ → ℕ) → Worker Reply → Type 0
  IsOwned extra w =
      (t : ℕ)
      → ((in_calls t w.calls ≡ in_tags t w.pending + extra t) × (in_calls t w.calls ≤ 1))
        × (w.fresh ≤ t → in_calls t w.calls ≡ 0)

  submit-IsOwned :
      (tag : ℕ) (st : RpcStatus) (w : Worker Reply)
      → IsOwned (λ t. is t tag) w
      → IsOwned (λ _. 0) (submit tag st w)
  unfolding submit
  submit-IsOwned tag st w h t =
      let ((e, once), below) = h t in
      let same = in_calls-set_status t tag st w.calls in
      (
        (omega (arith, e, same, in_tags-append t w.pending (tag ∷ [])), omega (arith, once, same)),
        λ l. same ∙ below l,
      )

  new_call-IsOwned :
      (extra : ℕ → ℕ) (w : Worker Reply) → IsOwned extra w → IsOwned extra (new_call w)
  unfolding submit new_call
  new_call-IsOwned extra w h t =
      let ((e, once), below) = h t in
      let made = record { tag = w.fresh; status = create } ∷ w.calls in
      let same = in_calls-set_status t w.fresh process made in
      let more = in_tags-append t w.pending (w.fresh ∷ []) in
      (
        (ground (arith, e, same, more), ground (arith, once, same, below)),
        λ l. ground (arith, l, same, below),
      )

  delete-IsOwned :
      (tag : ℕ) (st : RpcStatus) (w : Worker Reply)
      → find_call tag w.calls ≡ some st
      → IsOwned (λ t. is t tag) w
      → IsOwned (λ _. 0) (delete tag w)
  unfolding delete
  delete-IsOwned tag st w f h t =
      let ((e, once), below) = h t in
      let less = in_calls-delete_call t tag st w.calls f in
      ((omega (arith, e, less), omega (arith, once, less)), λ l. omega (arith, below l, less))

  proceed-IsOwned :
      (tag : ℕ) (st : RpcStatus) (reply : Reply) (o : Outcome) (w : Worker Reply)
      → find_call tag w.calls ≡ some st
      → IsOwned (λ t. is t tag) w
      → IsOwned (λ _. 0) (proceed st tag reply o w)
  unfolding proceed
  proceed-IsOwned tag create reply o w f h = submit-IsOwned tag process w h
  proceed-IsOwned tag process reply o w f h =
      elim w.stop_requested
        as (λ b. IsOwned (λ _. 0) (submit tag finish (if b then w else new_call w))) [
          | true ↦ submit-IsOwned tag finish w h
          | false ↦ submit-IsOwned tag finish (new_call w) (new_call-IsOwned (λ t. is t tag) w h)
        ]
  proceed-IsOwned tag finish reply o w f h = delete-IsOwned tag finish w f h

  -- The worker when the queue has given an event.
  abbrev pub taken : ℕ → Worker Reply → Worker Reply
  taken tag w = record w { beats = suc w.beats; pending = remove tag w.pending }

  taken-IsOwned :
      (tag : ℕ) (w : Worker Reply)
      → 1 ≤ in_tags tag w.pending
      → IsOwned (λ _. 0) w
      → IsOwned (λ t. is t tag) (taken tag w)
  taken-IsOwned tag w p h t =
      let ((e, once), below) = h t in
      ((omega (arith, e, in_tags-remove t tag w.pending p), once), below)

  pub IsGiven-pending :
      (tag : ℕ) (ok : Bool) (o : Option RpcStatus) (w : Worker Reply)
      → IsGiven tag ok o w
      → 1 ≤ in_tags tag w.pending
  IsGiven-pending tag true (some process) w (h, _) = h
  IsGiven-pending tag false (some process) w (h, _) = h
  IsGiven-pending tag true (some create) w h = h
  IsGiven-pending tag true (some finish) w h = h
  IsGiven-pending tag false (some create) w h = h
  IsGiven-pending tag false (some finish) w h = h
  IsGiven-pending tag true none w h = h
  IsGiven-pending tag false none w h = h

  abbrev from : Worker Reply → Option (Worker Reply) → Worker Reply
  from w none = w
  from w (some w') = w'

  pub some-inj : (w w' : Worker Reply) → some w ≡ some w' → w ≡ w'
  some-inj w w' e = ap (from w) e

  -- What an event does to the call that it finds.
  abbrev pub handled : ℕ → Bool → Reply → Outcome → RpcStatus → Worker Reply → Worker Reply
  handled tag ok reply o st w =
      if ok then proceed st tag reply o (taken tag w) else delete tag (taken tag w)

  pub deliver-found :
      (tag : ℕ) (ok : Bool) (reply : Reply) (o : Outcome) (st : RpcStatus) (w : Worker Reply)
      → find_call tag w.calls ≡ some st
      → deliver (got tag ok reply o) w ≡ some (handled tag ok reply o st w)
  unfolding deliver
  deliver-found tag ok reply o st w f = rw (f, deliver) refl

  -- The tag of an event is the address of a live object.
  pub found :
      (tag : ℕ) (w : Worker Reply)
      → IsOwned (λ _. 0) w
      → 1 ≤ in_tags tag w.pending
      → (st : RpcStatus) × (find_call tag w.calls ≡ some st)
  found tag w h p = elim (Option-cases (find_call tag w.calls)) [
    | inl e ↦ absurd (omega (arith, p, (h tag).0.0, find_call-live tag w.calls e))
    | inr r ↦ r
  ]

  pub handled-IsOwned :
      (tag : ℕ) (ok : Bool) (reply : Reply) (o : Outcome) (st : RpcStatus) (w : Worker Reply)
      → find_call tag w.calls ≡ some st
      → 1 ≤ in_tags tag w.pending
      → IsOwned (λ _. 0) w
      → IsOwned (λ _. 0) (handled tag ok reply o st w)
  handled-IsOwned tag true reply o st w f p h =
      proceed-IsOwned tag st reply o (taken tag w) f (taken-IsOwned tag w p h)
  handled-IsOwned tag false reply o st w f p h =
      delete-IsOwned tag st (taken tag w) f (taken-IsOwned tag w p h)

  deliver-IsOwned :
      (e : Event Reply) (w w' : Worker Reply)
      → IsEvent e w
      → deliver e w ≡ some w'
      → IsOwned (λ _. 0) w
      → IsOwned (λ _. 0) w'
  unfolding deliver
  deliver-IsOwned timeout w w' i e h = subst (IsOwned (λ _. 0)) (some-inj _ _ e) h
  deliver-IsOwned shutdown w w' i e h = subst (IsOwned (λ _. 0)) (some-inj _ _ e) h
  deliver-IsOwned (got tag ok reply o) w w' i e h =
      let p = IsGiven-pending tag ok (find_call tag w.calls) w i in
      let (st, f) = found tag w h p in
      subst (IsOwned (λ _. 0)) (some-inj _ _ (sym (deliver-found tag ok reply o st w f) ∙ e))
        (handled-IsOwned tag ok reply o st w f p h)

  pub Reach-IsOwned : {w : Worker Reply} → Reach w → IsOwned (λ _. 0) w
  unfolding run_start
  Reach-IsOwned here = new_call-IsOwned (λ _. 0) initial (λ t. ((refl, omega arith), λ _. refl))
  Reach-IsOwned (next r stops) = Reach-IsOwned r
  Reach-IsOwned (next r (shuts_server _)) = Reach-IsOwned r
  Reach-IsOwned (next r (shuts_queue _ _)) = Reach-IsOwned r
  Reach-IsOwned (next r (runs e w' l i d)) = deliver-IsOwned e _ w' i d (Reach-IsOwned r)

  -- In every state of the loop that is reached, an object of a call is live exactly where its tag is
  -- pending in the queue, once; so an object is deleted once, and none is left without an event.
  pub reach-owns :
      (w : Worker Reply) (t : ℕ)
      → Reach w
      → (in_calls t w.calls ≡ in_tags t w.pending) × (in_tags t w.pending ≤ 1)
  reach-owns w t r =
      let ((e, once), _) = Reach-IsOwned r t in (omega (arith, e), omega (arith, e, once))

  -- Every event that the queue can give in a reached state finds a live object: `run` never uses a
  -- deleted one, and each step of its loop has a next state.
  pub deliver-is_live :
      (w : Worker Reply) (e : Event Reply) → Reach w → IsEvent e w → ¬ (deliver e w ≡ none)
  unfolding deliver
  deliver-is_live w timeout r i d = ground (arith, d)
  deliver-is_live w shutdown r i d = ground (arith, d)
  deliver-is_live w (got tag ok reply o) r i d =
      let h = Reach-IsOwned r in
      let p = IsGiven-pending tag ok (find_call tag w.calls) w i in
      let (st, f) = found tag w h p in ground (arith, sym (deliver-found tag ok reply o st w f) ∙ d)

  -- When the queue says that it is shut down, `run` ends and no object of a call is left.
  pub shutdown_leaves_none :
      (w : Worker Reply)
      → Reach w
      → IsEvent shutdown w
      → (deliver shutdown w ≡ some (record w { beats = suc w.beats; looping = false }))
        × (w.calls ≡ [])
  unfolding deliver
  shutdown_leaves_none w r (empty, _) =
      (refl, none_left w.calls (λ t. (reach-owns w t r).0 ∙ ap (in_tags t) empty))
