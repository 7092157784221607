-- ===== src/ThreadQueue/CachedSize.antt =====
-- cThreadQueue_V2.h: the size that is read without the lock.
use thread_component.Prelude.{ℕ, ◌≡◌, refl, ap, ◌↔◌, true, false, List, [], ◌∷◌, arith, length}
use thread_component.ThreadQueue.{
  Queue, new, clear, push, push_queue, emplace, assign_queue, pop_locked, try_get_front, get_front,
  get_front_count, get_all, size, empty,
}
use thread_component.ThreadQueue.Call.{
  Call, clears, pushes, emplaces, pushes_queue, assigns, tries, gets, gets_count, gets_all, step,
  run,
}

module _ {ℓ} {A : Type ℓ} where
  -- The cached size is the number of queued elements.
  abbrev pub IsSynced : Queue A → Type 0
  IsSynced q = q.queue_size ≡ length q.items

  push_queue-IsSynced : (vs : List A) (q : Queue A) → IsSynced q → IsSynced (push_queue vs q)
  unfolding push_queue
  push_queue-IsSynced [] q h = h
  push_queue-IsSynced (v ∷ vs) q h = refl

  pop-IsSynced : (l : List A) (q : Queue A) → IsSynced q → IsSynced (pop_locked l q).1
  unfolding pop_locked
  pop-IsSynced [] q h = h
  pop-IsSynced (x ∷ l) q h = refl

  -- `getFront`, which throws on the empty queue, leaves the queue of `tryGetFront`.
  get_front-queue : (l : List A) (q : Queue A) → q.items ≡ l → (get_front q).1 ≡ (try_get_front q).1
  unfolding get_front
  get_front-queue [] q e = rw (e, pop_locked)
  get_front-queue (x ∷ l) q e = rw (e, pop_locked)

  count-IsSynced : (n : ℕ) (q : Queue A) → IsSynced q → IsSynced (get_front_count n q).1
  unfolding get_front_count
  count-IsSynced n q h = ground arith

  -- Every call leaves the cached size right, also a call that throws.
  pub step-IsSynced : (c : Call A) (q : Queue A) → IsSynced q → IsSynced (step c q).1
  unfolding step
  step-IsSynced clears q h = unfold clear in refl
  step-IsSynced (pushes a) q h = unfold push in refl
  step-IsSynced (emplaces a) q h = unfold emplace in refl
  step-IsSynced (pushes_queue vs) q h = push_queue-IsSynced vs q h
  step-IsSynced (assigns vs) q h = unfold assign_queue in refl
  step-IsSynced tries q h = unfold try_get_front in pop-IsSynced q.items q h
  step-IsSynced gets q h =
      rw (get_front-queue q.items q refl) (unfold try_get_front in pop-IsSynced q.items q h)
  step-IsSynced (gets_count n) q h = count-IsSynced n q h
  step-IsSynced gets_all q h = unfold get_all in refl

  run-IsSynced : (cs : List (Call A)) (q : Queue A) → IsSynced q → IsSynced (run cs q).1
  unfolding run
  run-IsSynced [] q h = h
  run-IsSynced (c ∷ cs) q h = run-IsSynced cs (step c q).1 (step-IsSynced c q h)

  size-zero_iff : (l : List A) → (length l ≡ 0) ↔ (l ≡ [])
  size-zero_iff [] = (λ _. refl, λ _. refl)
  size-zero_iff (x ∷ l) = (λ h. absurd (omega (arith, h)), λ h. ap length h)

  -- After any history of calls on a new queue, `size` and `empty` answer the same with the cached
  -- size as with the lock, and `empty` is true exactly when nothing is queued.
  pub run_observers :
      (cs : List (Call A))
      → let q = (run cs new).1 in
        (size true q ≡ size false q)
        × (empty true q ≡ empty false q)
        × ((empty true q ≡ true) ↔ (q.items ≡ []))
  unfolding size empty
  run_observers cs =
      let q = (run cs new).1 in
      let h : IsSynced q = run-IsSynced cs new refl in
      (h, rw h, ground (arith, h, size-zero_iff q.items))
