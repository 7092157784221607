-- ===== src/Grpc/Answers.antt =====
-- cGenericGrpcWorker.h: what the clients are answered.
use thread_component.Prelude.{
  ℕ, ◌≡◌, refl, sym, ap, ◌∙◌, Bool, true, false, Option, some, List, [], ◌∷◌, ◌++◌, map, append-nil,
  if◌then◌else◌,
}
use mathlib.Core.List.{map-append}
use thread_component.Grpc.Call.{
  RpcStatus, create, process, finish, Status, Worker, Event, timeout, shutdown, got, Outcome,
  returns, throws, throws_other, unhandled, find_call, submit, new_call, delete, proceed, run_start,
  deliver, final_status,
}
use thread_component.Grpc.System.{
  IsEvent, stops, shuts_server, shuts_queue, runs, Reach, here, next,
}
use thread_component.Grpc.Ownership.{
  Reach-IsOwned, IsGiven-pending, found, handled, deliver-found, some-inj, taken,
}

module _ {Reply : Type 0} where
  -- The requests that an event brings, with what `OnExecuteRpc` does on them: one, where it tells a
  -- call that waits for its request that it is there.
  abbrev served_now : Bool → Option RpcStatus → Reply → Outcome → List (Reply × Outcome)
  served_now true (some process) reply o = (reply, o) ∷ []
  served_now _ _ reply o = []

  abbrev served_by : Event Reply → Worker Reply → List (Reply × Outcome)
  served_by (got tag ok reply o) w = served_now ok (find_call tag w.calls) reply o
  served_by _ w = []

  -- The requests of a run so far, in order.
  abbrev pub served : {w : Worker Reply} → Reach w → List (Reply × Outcome)
  served here = []
  served (next r stops) = served r
  served (next r (shuts_server _)) = served r
  served (next r (shuts_queue _ _)) = served r
  served (next {w} r (runs e w' l i d)) = served r ++ served_by e w

  -- What a client is to be answered, by how `OnExecuteRpc` ended; 13 is INTERNAL in the protocol of
  -- gRPC. A text of the exception is told after the colon and the blank.
  abbrev pub answer : Reply × Outcome → Reply × Status
  answer (reply, returns status) = (reply, status)
  answer (reply, throws what) = (reply, record { code = 13; message = unhandled ++ 58 ∷ 32 ∷ what })
  answer (reply, throws_other) = (reply, record { code = 13; message = unhandled })

  final_status-answer : (reply : Reply) (o : Outcome) → (reply, final_status o) ≡ answer (reply, o)
  unfolding final_status
  final_status-answer reply (returns status) = refl
  final_status-answer reply (throws what) = refl
  final_status-answer reply throws_other = refl

  handled-finished :
      (tag : ℕ) (ok : Bool) (reply : Reply) (o : Outcome) (st : RpcStatus) (w : Worker Reply)
      → (handled tag ok reply o st w).finished
        ≡ w.finished ++ map answer (served_now ok (some st) reply o)
  unfolding proceed submit delete new_call
  handled-finished tag false reply o st w = sym (append-nil w.finished)
  handled-finished tag true reply o create w = sym (append-nil w.finished)
  handled-finished tag true reply o finish w = sym (append-nil w.finished)
  handled-finished tag true reply o process w =
      elim w.stop_requested
        as (λ b.
          (if b then taken tag w else new_call (taken tag w)).finished
            ++ (reply, final_status o) ∷ []
          ≡ w.finished ++ (reply, final_status o) ∷ []) [ true ↦ refl | false ↦ refl ]
      ∙ ap (λ a. w.finished ++ a ∷ []) (final_status-answer reply o)

  deliver-finished :
      (e : Event Reply) (w w' : Worker Reply)
      → Reach w
      → IsEvent e w
      → deliver e w ≡ some w'
      → w'.finished ≡ w.finished ++ map answer (served_by e w)
  unfolding deliver
  deliver-finished timeout w w' r i d =
      sym (ap (λ x. x.finished) (some-inj _ _ d)) ∙ sym (append-nil w.finished)
  deliver-finished shutdown w w' r i d =
      sym (ap (λ x. x.finished) (some-inj _ _ d)) ∙ sym (append-nil w.finished)
  deliver-finished (got tag ok reply o) w w' r i d =
      let p = IsGiven-pending tag ok (find_call tag w.calls) w i in
      let (st, f) = found tag w (Reach-IsOwned r) p in
      let e = some-inj _ _ (sym (deliver-found tag ok reply o st w f) ∙ d) in
      sym (ap (λ (x : Worker Reply). x.finished) e)
      ∙ handled-finished tag ok reply o st w
      ∙ ap (λ x. w.finished ++ map answer (served_now ok x reply o)) (sym f)

  -- `Finish` was called once for each request that came, in their order, with the reply of
  -- `OnExecuteRpc` and its status, or, where that threw, with the code 13 (INTERNAL) and a text that
  -- says so, and gives the text of the exception where it has one.
  pub reach-answers : (w : Worker Reply) (r : Reach w) → w.finished ≡ map answer (served r)
  unfolding run_start new_call submit
  reach-answers w here = refl
  reach-answers w (next r stops) = reach-answers _ r
  reach-answers w (next r (shuts_server _)) = reach-answers _ r
  reach-answers w (next r (shuts_queue _ _)) = reach-answers _ r
  reach-answers w (next {w = v} r (runs e w' l i d)) =
      deliver-finished e v w r i d
      ∙ ap (λ xs. xs ++ map answer (served_by e v)) (reach-answers v r)
      ∙ sym (map-append answer (served r) (served_by e v))
