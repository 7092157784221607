-- ===== src/Grpc/Call.antt =====
-- cGenericGrpcWorker.h: the objects of the calls, and what an event does to them.
use thread_component.Prelude.{
  ℕ, suc, Bool, false, Option, none, some, List, [], ◌∷◌, ◌++◌, if◌then◌else◌, ◌==◌,
}
use thread_component.HttpClient.Text.{Text}

-- `enm_RpcStatus`.
pub data RpcStatus : Type 0 where
  create process finish : RpcStatus

-- `CallData`: its address, which is its tag, and `m_status`.
pub record Call : Type 0 where
  pub tag : ℕ
  pub status : RpcStatus

-- `grpc::Status`, as far as the source makes one.
pub record Status : Type 0 where
  pub code : ℕ
  pub message : Text

-- What `OnExecuteRpc` does, besides filling the reply.
pub data Outcome : Type 0 where
  returns : Status → Outcome
  throws : Text → Outcome
  throws_other : Outcome

-- `StatusCode::INTERNAL`.
abbrev pub internal : ℕ
internal = 13

-- "Unhandled exception in OnExecuteRpc".
abbrev pub unhandled : Text
unhandled =
    85 ∷ 110 ∷ 104 ∷ 97 ∷ 110 ∷ 100 ∷ 108 ∷ 101 ∷ 100 ∷ 32 ∷ 101 ∷ 120 ∷ 99 ∷ 101 ∷ 112 ∷ 116 ∷ 105
    ∷ 111 ∷ 110 ∷ 32 ∷ 105 ∷ 110 ∷ 32 ∷ 79 ∷ 110 ∷ 69 ∷ 120 ∷ 101 ∷ 99 ∷ 117 ∷ 116 ∷ 101 ∷ 82 ∷ 112
    ∷ 99 ∷ []

-- The `try` around `OnExecuteRpc`; 58 and 32 are the colon and the blank before `what`.
unfoldable pub final_status : Outcome → Status
final_status (returns status) = status
final_status (throws what) = record { code = internal; message = unhandled ++ 58 ∷ 32 ∷ what }
final_status throws_other = record { code = internal; message = unhandled }

-- The worker in `run`: the objects that are live, the operations handed to the queue whose events
-- are to come, the next address, what `Finish` was called with, the flag of the worker, whether the
-- server and the queue were shut down, the heartbeats, and whether the loop goes on.
pub record Worker (Reply : Type 0) : Type 0 where
  pub calls : List Call
  pub pending : List ℕ
  pub fresh : ℕ
  pub finished : List (Reply × Status)
  pub stop_requested : Bool
  pub server_down : Bool
  pub queue_down : Bool
  pub beats : ℕ
  pub looping : Bool

-- What `AsyncNext` returns. An event has its tag and `ok`; with it stands what `OnExecuteRpc` then
-- does, where it is called: the reply that it leaves, and how it ends.
pub data Event (Reply : Type 0) : Type 0 where
  timeout shutdown : Event Reply
  got : ℕ → Bool → Reply → Outcome → Event Reply

unfoldable pub find_call : ℕ → List Call → Option RpcStatus
find_call tag [] = none
find_call tag (x ∷ xs) = let rest = find_call tag xs in if tag == x.tag then some x.status else rest

unfoldable pub set_status : ℕ → RpcStatus → List Call → List Call
set_status tag status [] = []
set_status tag status (x ∷ xs) =
    let rest = set_status tag status xs in
    if tag == x.tag then record x { status = status } ∷ xs else x ∷ rest

unfoldable pub delete_call : ℕ → List Call → List Call
delete_call tag [] = []
delete_call tag (x ∷ xs) = let rest = delete_call tag xs in if tag == x.tag then xs else x ∷ rest

-- The queue gives an event once.
unfoldable pub remove : ℕ → List ℕ → List ℕ
remove tag [] = []
remove tag (x ∷ xs) = let rest = remove tag xs in if tag == x then xs else x ∷ rest

module _ {Reply : Type 0} where
  -- An operation with the tag of the call is handed to the queue.
  unfoldable pub submit : ℕ → RpcStatus → Worker Reply → Worker Reply
  submit tag status w = record w {
    calls = set_status tag status w.calls;
    pending = w.pending ++ tag ∷ [];
  }

  -- `new CallData`, and the `Proceed` of its constructor.
  unfoldable pub new_call : Worker Reply → Worker Reply
  new_call w = submit w.fresh process (record w {
    calls = record { tag = w.fresh; status = create } ∷ w.calls;
    fresh = suc w.fresh;
  })

  unfoldable pub delete : ℕ → Worker Reply → Worker Reply
  delete tag w = record w { calls = delete_call tag w.calls }

  -- `Proceed` of the call with this tag and status.
  unfoldable pub proceed : RpcStatus → ℕ → Reply → Outcome → Worker Reply → Worker Reply
  proceed create tag reply o w = submit tag process w
  proceed process tag reply o w =
      let w' = if w.stop_requested then w else new_call w in
      record (submit tag finish w') { finished = w'.finished ++ (reply, final_status o) ∷ [] }
  proceed finish tag reply o w = delete tag w

  -- `run`: its start, and the body of its loop.
  unfoldable pub run_start : Worker Reply → Worker Reply
  run_start w = new_call w

  unfoldable pub deliver : Event Reply → Worker Reply → Option (Worker Reply)
  deliver timeout w = some (record w { beats = suc w.beats })
  deliver shutdown w = some (record w { beats = suc w.beats; looping = false })
  deliver (got tag ok reply o) w =
      let w' = record w { beats = suc w.beats; pending = remove tag w.pending } in
      elim (find_call tag w.calls) [
        | none ↦ none
        | some status ↦ some (if ok then proceed status tag reply o w' else delete tag w')
      ]
