-- ===== src/ThreadQueue/Call.antt =====
-- cThreadQueue_V2.h: the calls of a queue, and a history of calls in the order in which they
-- hold the lock.
use thread_component.Prelude.{ℕ, Option, none, some, List, [], ◌∷◌, ◌++◌}
use thread_component.ThreadQueue.{
  Queue, Popped, value, underflow_error, clear, push, push_queue, emplace, assign_queue,
  try_get_front, get_front, get_front_count, get_all,
}

pub data Call {ℓ} (A : Type ℓ) : Type ℓ where
  clears : Call A
  pushes : A → Call A
  emplaces : A → Call A
  pushes_queue : List A → Call A
  assigns : List A → Call A
  tries : Call A
  gets : Call A
  gets_count : ℕ → Call A
  gets_all : Call A

module _ {ℓ} {A : Type ℓ} where
  abbrev of_option : Option A → List A
  of_option none = []
  of_option (some a) = a ∷ []

  abbrev of_popped : Popped A → List A
  of_popped (value a) = a ∷ []
  of_popped underflow_error = []

  -- The elements that a call hands to the queue, in order.
  unfoldable pub enters : Call A → List A
  enters (pushes a) = a ∷ []
  enters (emplaces a) = a ∷ []
  enters (pushes_queue vs) = vs
  enters (assigns vs) = vs
  enters _ = []

  -- The elements that leave the queue, in order: given to the caller, or discarded by `clear` and
  -- by an assignment; and the queue after the call.
  unfoldable pub step : Call A → Queue A → List A × Queue A
  step clears q = (q.items, clear q)
  step (pushes a) q = ([], push a q)
  step (emplaces a) q = ([], emplace (λ (v : A). v) a q)
  step (pushes_queue vs) q = ([], push_queue vs q)
  step (assigns vs) q = (q.items, assign_queue vs q)
  step tries q = let (o, q') = try_get_front q in (of_option o, q')
  step gets q = let (o, q') = get_front q in (of_popped o, q')
  step (gets_count n) q = get_front_count n q
  step gets_all q = get_all q

  unfoldable pub entered : List (Call A) → List A
  entered [] = []
  entered (c ∷ cs) = enters c ++ entered cs

  unfoldable pub run : List (Call A) → Queue A → List A × Queue A
  run [] q = ([], q)
  run (c ∷ cs) q = let (out, q') = step c q in let (outs, q'') = run cs q' in (out ++ outs, q'')
