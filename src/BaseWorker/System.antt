-- ===== src/BaseWorker/System.antt =====
-- cBaseWorker_V2.h: one worker with all threads that ever ran for it, and the steps that callers
-- and threads can take, in any order.
use thread_component.Prelude.{Bool, List, [], ◌∷◌, ◌++◌, ◌≡◌, if◌then◌else◌}
use thread_component.BaseWorker.{
  Worker, Pc, pre_run, finish, Choice, new, request_stop, start_locked, take_finished, take_thread,
  thread_step,
}

-- A caller whose `startThread` could not create its thread, and that has yet to run its handler
-- `setState(Stopped)`, stands in the list like a thread at its end.
pub record System (E : Type 0) : Type 0 where
  pub worker : Worker E
  pub threads : List (Pc E)

module _ {E : Type 0} where
  abbrev pub initial : System E
  initial = record { worker = new; threads = [] }

  unfoldable pub start : Bool → System E → System E
  start spawned s =
      let (w, started) = start_locked spawned s.worker in
      if started
      then record { worker = w; threads = s.threads ++ (if spawned then pre_run else finish) ∷ [] }
      else s

  -- Every interleaving of callers and threads is a sequence of these steps.
  pub data Step (s : System E) : System E → Type 0 where
    stops : Step s (record s { worker = (request_stop s.worker).0 })
    starts : (spawned : Bool) → Step s (start spawned s)
    joins_finished : Step s (record s { worker = (take_finished s.worker).0 })
    joins : Step s (record s { worker = (take_thread s.worker).0 })
    advances :
        (c : Choice E) (others : List (Pc E)) (pc : Pc E) (more : List (Pc E))
        → s.threads ≡ others ++ pc ∷ more
        → Step s (record {
          worker = (thread_step c pc s.worker).1;
          threads = others ++ (thread_step c pc s.worker).0 ∷ more;
        })

  pub data Reach (s : System E) : System E → Type 0 where
    here : Reach s s
    next : {t u : System E} → Reach s t → Step t u → Reach s u
