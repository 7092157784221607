-- ===== src/Grpc/System.antt =====
-- cGenericGrpcWorker.h: `run` beside `stopTriggered`, with what the library's documentation says of
-- its events.
use thread_component.Prelude.{
  ℕ, ◌≡◌, ◌≤◌, Bool, true, false, Option, some, List, [], ◌∷◌, ◌+◌, if◌then◌else◌, ◌==◌,
}
use thread_component.Grpc.Call.{
  RpcStatus, process, finish, Call, Worker, Event, timeout, shutdown, got, find_call, run_start,
  deliver,
}

abbrev pub in_tags : ℕ → List ℕ → ℕ
in_tags tag [] = 0
in_tags tag (x ∷ xs) = (if tag == x then 1 else 0) + in_tags tag xs

abbrev pub total : (RpcStatus → ℕ) → List Call → ℕ
total f [] = 0
total f (x ∷ xs) = f x.status + total f xs

abbrev pub is_answered : RpcStatus → ℕ
is_answered finish = 1
is_answered _ = 0

-- How many calls are being answered.
abbrev pub answering : List Call → ℕ
answering xs = total is_answered xs

module _ {Reply : Type 0} where
  -- Before `run`.
  abbrev pub initial : Worker Reply
  initial = record {
    calls = [];
    pending = [];
    fresh = 0;
    finished = [];
    stop_requested = false;
    server_down = false;
    queue_down = false;
    beats = 0;
    looping = true;
  }

  -- A tag is delivered for an operation that is pending; the wait for a request fails only where the
  -- server is shut down, and succeeds only where the queue is not; a queue that is shut down tells so
  -- once it is empty.
  abbrev pub IsGiven : ℕ → Bool → Option RpcStatus → Worker Reply → Type 0
  IsGiven tag true (some process) w = (1 ≤ in_tags tag w.pending) × (w.queue_down ≡ false)
  IsGiven tag false (some process) w = (1 ≤ in_tags tag w.pending) × (w.server_down ≡ true)
  IsGiven tag ok _ w = 1 ≤ in_tags tag w.pending

  abbrev pub IsEvent : Event Reply → Worker Reply → Type 0
  IsEvent timeout w = Unit
  IsEvent shutdown w = (w.pending ≡ []) × (w.queue_down ≡ true)
  IsEvent (got tag ok reply o) w = IsGiven tag ok (find_call tag w.calls) w

  -- `Server::Shutdown` comes after the flag is set, and returns when no call is being answered; the
  -- queue is shut down after it.
  pub data Step (w : Worker Reply) : Worker Reply → Type 0 where
    stops : Step w (record w { stop_requested = true })
    shuts_server : w.stop_requested ≡ true → Step w (record w { server_down = true })
    shuts_queue :
        w.server_down ≡ true → answering w.calls ≡ 0 → Step w (record w { queue_down = true })
    runs :
        (e : Event Reply) (w' : Worker Reply)
        → w.looping ≡ true
        → IsEvent e w
        → deliver e w ≡ some w'
        → Step w w'

  pub data Reach : Worker Reply → Type 0 where
    here : Reach (run_start initial)
    next : {w w' : Worker Reply} → Reach w → Step w w' → Reach w'
