-- ===== src/BaseWorker/Invariant.antt =====
-- cBaseWorker_V2.h: what holds of a worker whatever its callers and threads do.
use thread_component.Prelude.{
  ◌+◌, ◌≡◌, refl, sym, ap, none, ◌⊎◌, subst, ◌∙◌, Bool, true, false, not, List, [], ◌∷◌, ◌++◌,
  arith, if◌then◌else◌, Bool-cases, inl, inr, ◌||◌,
}
use thread_component.BaseWorker.{
  starting, stopped, is_stopped, Worker, Pc, pre_run, check, enter, body, finish, exited, caught,
  Choice, completes, refuses, raises, request_stop, start_locked, take_finished, take_thread,
  thread_step,
}
use thread_component.BaseWorker.System.{
  System, initial, start, Step, stops, starts, joins_finished, joins, advances, Reach, here, next,
}
use thread_component.BaseWorker.Places.{
  live, live_count, fits, known, All, live_count-append, All-append-right, All-append, All-imp,
  All-exited,
}

module _ {E : Type 0} where
  -- At most one thread is live: exactly one unless the worker is stopped. The state is never
  -- `Unknown`, and every thread stands where the state allows.
  pub record Inv (s : System E) : Type 0 where
    pub states : known s.worker.state s.worker.stop_requested ≡ true
    pub alone : live_count s.threads ≡ (if is_stopped s.worker.state then 0 else 1)
    pub places : All (fits s.worker.state s.worker.stop_requested) s.threads

  stop-fits :
      (w : Worker E) (pc : Pc E)
      → fits w.state w.stop_requested pc ≡ true
      → fits (request_stop w).0.state (request_stop w).0.stop_requested pc ≡ true
  unfolding fits request_stop
  stop-fits w exited h = ground arith
  stop-fits w _ h = ground arith

  stop-states :
      (w : Worker E)
      → known w.state w.stop_requested ≡ true
      → (known (request_stop w).0.state (request_stop w).0.stop_requested ≡ true)
        × (is_stopped (request_stop w).0.state ≡ is_stopped w.state)
  unfolding known request_stop
  stop-states w h = ground arith

  -- One step of a live thread.
  advance-live :
      (c : Choice E) (pc : Pc E) (w : Worker E)
      → live pc ≡ 1
      → known w.state w.stop_requested ≡ true
      → fits w.state w.stop_requested pc ≡ true
      → let w' = (thread_step c pc w).1 in
        let pc' = (thread_step c pc w).0 in
        (known w'.state w'.stop_requested ≡ true)
        × (fits w'.state w'.stop_requested pc' ≡ true)
        × (live pc' ≡ (if is_stopped w'.state then 0 else 1))
        × (is_stopped w.state ≡ false)
  unfolding known fits thread_step
  advance-live completes pre_run w l k f = ground arith
  advance-live refuses pre_run w l k f = ground arith
  advance-live (raises e) pre_run w l k f = ground arith
  advance-live c check w l k f = ground arith
  advance-live c enter w l k f = ground arith
  advance-live completes body w l k f = ground arith
  advance-live refuses body w l k f = ground arith
  advance-live (raises e) body w l k f = ground arith
  advance-live c (caught e) w l k f = ground arith
  advance-live c finish w l k f = ground arith
  advance-live c exited w l k f = absurd (omega arith)

  initial-Inv : Inv initial
  unfolding known
  initial-Inv = record { states = refl; alone = refl; places = tt }

  stops-Inv : (s : System E) → Inv s → Inv (record s { worker = (request_stop s.worker).0 })
  stops-Inv s v =
      let (known', same) = stop-states s.worker v.states in
      record {
        states = known';
        alone = rw same v.alone;
        places = All-imp _ _ (stop-fits s.worker) s.threads v.places;
      }

  spawned_pc : Bool → Pc E
  spawned_pc spawned = if spawned then pre_run else finish

  -- A start finds only threads that have exited.
  started-Inv :
      (spawned : Bool) (s : System E)
      → Inv s
      → s.worker.state ≡ stopped
      → Inv (record {
        worker = record {
          state = starting;
          stop_requested = false;
          joinable = spawned;
          last_unhandled_exception = none;
        };
        threads = s.threads ++ spawned_pc spawned ∷ [];
      })
  unfolding known fits spawned_pc
  started-Inv spawned s v e =
      let idle : live_count s.threads ≡ 0 = v.alone ∙ rw e refl in
      record {
        states = refl;
        alone = ground (arith, live_count-append s.threads (spawned_pc spawned ∷ []));
        places =
            All-append (fits starting false) s.threads (spawned_pc spawned ∷ [])
              (All-exited starting false s.threads refl idle) (ground arith, tt);
      }

  start-Inv : (spawned : Bool) (s : System E) → Inv s → Inv (start spawned s)
  unfolding start start_locked spawned_pc
  start-Inv spawned s v = elim (Bool-cases (not (is_stopped s.worker.state) || s.worker.joinable)) [
    | inl busy ↦ rw (busy, start) v
    | inr free ↦ rw (free, start) (started-Inv spawned s v (ground arith))
  ]

  -- Taking the thread's handle moves no thread and changes no state.
  handle-Inv :
      (s : System E) (w : Worker E)
      → w.state ≡ s.worker.state
      → w.stop_requested ≡ s.worker.stop_requested
      → Inv s
      → Inv (record s { worker = w })
  handle-Inv s w e f v = record {
    states = rw (e, f) v.states;
    alone = rw e v.alone;
    places = rw (e, f) v.places;
  }

  take_finished-Inv :
      (s : System E) → Inv s → Inv (record s { worker = (take_finished s.worker).0 })
  unfolding take_finished
  take_finished-Inv s = handle-Inv s (take_finished s.worker).0 (ground arith) (ground arith)

  take_thread-Inv : (s : System E) → Inv s → Inv (record s { worker = (take_thread s.worker).0 })
  unfolding take_thread
  take_thread-Inv s = handle-Inv s (take_thread s.worker).0 (ground arith) (ground arith)

  exited-step :
      (c : Choice E) (pc : Pc E) (w : Worker E) → live pc ≡ 0 → thread_step c pc w ≡ (pc, w)
  unfolding thread_step
  exited-step c exited w h = refl
  exited-step c _ w h = absurd (omega arith)

  live-cases : (pc : Pc E) → (live pc ≡ 0) ⊎ (live pc ≡ 1)
  live-cases exited = inl refl
  live-cases _ = inr refl

  advance-Inv :
      (s : System E) (c : Choice E) (others : List (Pc E)) (pc : Pc E) (more : List (Pc E))
      → s.threads ≡ others ++ pc ∷ more
      → Inv s
      → Inv (record {
        worker = (thread_step c pc s.worker).1;
        threads = others ++ (thread_step c pc s.worker).0 ∷ more;
      })
  advance-Inv s c others pc more e v = elim (live-cases pc) [
    | inl idle ↦ rw (exited-step c pc s.worker idle, ← e) v
    | inr l ↦
        let w = s.worker in
        let here' : All (fits w.state w.stop_requested) (others ++ pc ∷ more) =
          subst (All (fits w.state w.stop_requested)) e v.places in
        let fit = (All-append-right (fits w.state w.stop_requested) others (pc ∷ more) here').0 in
        let (k, f, a, n) = advance-live c pc w l v.states fit in
        let total : live_count others + live_count (pc ∷ more) ≡ 1 =
          sym (live_count-append others (pc ∷ more))
          ∙ ap live_count (sym e)
          ∙ v.alone
          ∙ rw n refl in
        let w' = (thread_step c pc w).1 in
        let pc' = (thread_step c pc w).0 in
        record {
          states = k;
          alone = omega (arith, live_count-append others (pc' ∷ more), a, total, l);
          places =
              All-append (fits w'.state w'.stop_requested) others (pc' ∷ more)
                (All-exited w'.state w'.stop_requested others k (omega (arith, total, l)))
                (f, All-exited w'.state w'.stop_requested more k (omega (arith, total, l)));
        }
  ]

  pub Step-Inv : {s t : System E} → Step s t → Inv s → Inv t
  Step-Inv {s} stops v = stops-Inv s v
  Step-Inv {s} (starts spawned) v = start-Inv spawned s v
  Step-Inv {s} joins_finished v = take_finished-Inv s v
  Step-Inv {s} joins v = take_thread-Inv s v
  Step-Inv {s} (advances c others pc more e) v = advance-Inv s c others pc more e v

  -- From a new worker, whatever callers and threads do, in whatever order: at most one thread is
  -- live, exactly one unless the worker is stopped; every thread stands at a point that fits the
  -- state and the flag; and the state is never `Unknown`.
  pub Reach-Inv : {s : System E} → Reach initial s → Inv s
  Reach-Inv here = initial-Inv
  Reach-Inv (next r st) = Step-Inv st (Reach-Inv r)
