-- ===== src/ThreadQueue/Fifo.antt =====
-- cThreadQueue_V2.h: every history of calls is first in, first out, and the calls that move many
-- elements do what vs many calls for one element do.
use thread_component.Prelude.{
  ℕ, zero, suc, ◌≡◌, refl, sym, ap, ◌∙◌, ◌⊎◌, inl, inr, true, false, none, some, List, [], ◌∷◌,
  ◌++◌, append-nil, append_assoc, arith, length, take, drop, take-append-drop, take_all, drop_all,
  suc-ne-zero,
}
use thread_component.ThreadQueue.{
  Queue, value, underflow_error, clear, push, push_loop, push_queue, emplace, assign_queue,
  pop_locked, try_get_front, try_get_front_into, get_front, front_loop, get_front_count, get_all,
}
use thread_component.ThreadQueue.Call.{
  Call, clears, pushes, emplaces, pushes_queue, assigns, tries, gets, gets_count, gets_all, enters,
  step, entered, run,
}

module _ {ℓ} {A : Type ℓ} where
  push_loop-append : (elements queue : List A) → push_loop elements queue ≡ queue ++ elements
  unfolding push_loop
  push_loop-append [] queue = sym (append-nil queue)
  push_loop-append (x ∷ xs) queue =
      push_loop-append xs (queue ++ x ∷ []) ∙ append_assoc queue (x ∷ []) xs

  front_loop-take-drop :
      (n : ℕ) (out queue : List A) → front_loop n out queue ≡ (out ++ take n queue, drop n queue)
  unfolding front_loop
  front_loop-take-drop zero out queue = cc (append-nil out)
  front_loop-take-drop (suc n) out [] = cc (append-nil out)
  front_loop-take-drop (suc n) out (x ∷ queue) =
      front_loop-take-drop n (out ++ x ∷ []) queue
      ∙ ap (λ l. (l, drop n queue)) (append_assoc out (x ∷ []) (take n queue))

  -- `push` of a queue leaves its elements behind the old ones, in order.
  pub items-push_queue : (vs : List A) (q : Queue A) → (push_queue vs q).items ≡ q.items ++ vs
  unfolding push_queue
  items-push_queue [] q = sym (append-nil q.items)
  items-push_queue (a ∷ vs) q = push_loop-append (a ∷ vs) q.items

  -- `getFront(n)` takes the first `n` elements, or all if there are fewer, and leaves the others.
  pub get_front_count-take-drop :
      (n : ℕ) (q : Queue A)
      → ((get_front_count n q).0 ≡ take n q.items)
        × ((get_front_count n q).1.items ≡ drop n q.items)
  unfolding get_front_count
  get_front_count-take-drop zero q = (refl, refl)
  get_front_count-take-drop (suc n) q = (
    rw (suc-ne-zero n, front_loop-take-drop (suc n) [] q.items),
    rw (suc-ne-zero n, front_loop-take-drop (suc n) [] q.items),
  )

  pop-flow :
      (q : Queue A) (l : List A)
      → q.items ≡ l
      → q.items ≡ (step tries q).0 ++ (step tries q).1.items
  unfolding step try_get_front
  pop-flow q [] e = rw (e, pop_locked) refl
  pop-flow q (x ∷ l) e = rw (e, pop_locked) refl

  gets-flow :
      (q : Queue A) (l : List A) → q.items ≡ l → q.items ≡ (step gets q).0 ++ (step gets q).1.items
  unfolding step get_front
  gets-flow q [] e = rw (e, pop_locked) refl
  gets-flow q (x ∷ l) e = rw (e, pop_locked) refl

  count-flow :
      (n : ℕ) (q : Queue A) → q.items ≡ (get_front_count n q).0 ++ (get_front_count n q).1.items
  count-flow n q =
      let h = get_front_count-take-drop n q in rw (h.0, h.1) (sym (take-append-drop n q.items))

  -- One call: what was queued and what enters is what leaves and what stays, in that order.
  pub step_fifo :
      (c : Call A) (q : Queue A) → q.items ++ enters c ≡ (step c q).0 ++ (step c q).1.items
  unfolding step enters
  step_fifo clears q = unfold clear in refl
  step_fifo (pushes a) q = unfold push in refl
  step_fifo (emplaces a) q = unfold emplace in refl
  step_fifo (pushes_queue vs) q = sym (items-push_queue vs q)
  step_fifo (assigns vs) q = unfold assign_queue in refl
  step_fifo tries q = append-nil q.items ∙ pop-flow q q.items refl
  step_fifo gets q = append-nil q.items ∙ gets-flow q q.items refl
  step_fifo (gets_count n) q = append-nil q.items ∙ count-flow n q
  step_fifo gets_all q = unfold get_all in refl

  -- In every history of calls, by whichever threads, the elements leave in the order in which
  -- they entered: those queued first, then those entered, are those that left, then those queued
  -- last. So none is lost, made up, repeated or overtaken.
  pub run_fifo :
      (cs : List (Call A)) (q : Queue A)
      → q.items ++ entered cs ≡ (run cs q).0 ++ (run cs q).1.items
  unfolding run entered
  run_fifo [] q = append-nil q.items
  run_fifo (c ∷ cs) q =
      let q' = (step c q).1 in
      sym (append_assoc q.items (enters c) (entered cs))
      ∙ ap (λ l. l ++ entered cs) (step_fifo c q)
      ∙ append_assoc (step c q).0 q'.items (entered cs)
      ∙ ap (λ l. (step c q).0 ++ l) (run_fifo cs q')
      ∙ sym (append_assoc (step c q).0 (run cs q').0 (run cs q').1.items)

  pub push_each : List A → Queue A → Queue A
  push_each [] q = q
  push_each (v ∷ vs) q = push_each vs (push v q)

  abbrev pub synced : List A → Queue A
  synced l = record { items = l; queue_size = length l }

  synced-items : (q : Queue A) → q.queue_size ≡ length q.items → q ≡ synced q.items
  synced-items q h = ground arith

  push_each-synced : (vs l : List A) → push_each vs (synced l) ≡ synced (l ++ vs)
  unfolding push_each push
  push_each-synced [] l = ap synced (sym (append-nil l))
  push_each-synced (v ∷ vs) l =
      push_each-synced vs (l ++ v ∷ []) ∙ ap synced (append_assoc l (v ∷ []) vs)

  push_queue-synced : (vs l : List A) → push_queue vs (synced l) ≡ synced (l ++ vs)
  unfolding push_queue
  push_queue-synced [] l = ap synced (sym (append-nil l))
  push_queue-synced (v ∷ vs) l = ap synced (push_loop-append (v ∷ vs) l)

  -- On a queue whose cached size is right, `push` of a queue is a `push` of each of its elements.
  pub push_queue-eq-push_each :
      (vs : List A) (q : Queue A) → q.queue_size ≡ length q.items → push_queue vs q ≡ push_each vs q
  push_queue-eq-push_each vs q h =
      ap (push_queue vs) (synced-items q h)
      ∙ push_queue-synced vs q.items
      ∙ sym (push_each-synced vs q.items)
      ∙ ap (push_each vs) (sym (synced-items q h))

  -- `tryGetFront` called `n` times: the elements that it returned.
  pub pop_each : ℕ → Queue A → List A × Queue A
  pop_each zero q = ([], q)
  pop_each (suc n) q =
      let (out, q') = step tries q in let (outs, q'') = pop_each n q' in (out ++ outs, q'')

  pop_each-synced : (n : ℕ) (l : List A) → pop_each n (synced l) ≡ (take n l, synced (drop n l))
  unfolding pop_each step try_get_front pop_locked
  pop_each-synced zero l = refl
  pop_each-synced (suc n) [] = rw (
    pop_each-synced n [],
    take_all {A = A} n [] (omega arith),
    drop_all {A = A} n [] (omega arith),
  )
  pop_each-synced (suc n) (x ∷ l) = rw (pop_each-synced n l)

  get_front_count-synced :
      (n : ℕ) (l : List A) → get_front_count n (synced l) ≡ (take n l, synced (drop n l))
  unfolding get_front_count
  get_front_count-synced zero l = refl
  get_front_count-synced (suc n) l = rw (suc-ne-zero n, front_loop-take-drop (suc n) [] l)

  -- On a queue whose cached size is right, `getFront(n)` is `n` calls of `tryGetFront`.
  pub get_front_count-eq-pop_each :
      (n : ℕ) (q : Queue A) → q.queue_size ≡ length q.items → get_front_count n q ≡ pop_each n q
  get_front_count-eq-pop_each n q h =
      ap (get_front_count n) (synced-items q h)
      ∙ get_front_count-synced n q.items
      ∙ sym (pop_each-synced n q.items)
      ∙ ap (pop_each n) (sym (synced-items q h))

  -- What the three ways to take one element do on the same queue.
  abbrev pub Fronts : Queue A → A → Type ℓ
  Fronts q element =
      ((q.items ≡ [])
        × (try_get_front q ≡ (none, q))
        × (try_get_front_into element q ≡ (element, false, q))
        × (get_front q ≡ (underflow_error, q)))
      ⊎ ((a : A) × (rest : List A) × (q.items ≡ a ∷ rest)
          × (try_get_front q ≡ (some a, synced rest))
          × (try_get_front_into element q ≡ (a, true, synced rest))
          × (get_front q ≡ (value a, synced rest)))

  fronts : (l : List A) (q : Queue A) (element : A) → q.items ≡ l → Fronts q element
  unfolding try_get_front_into get_front
  fronts [] q element e = inl (e, rw (e, pop_locked), rw (e, pop_locked), rw (e, pop_locked))
  fronts (x ∷ l) q element e =
      inr (x, l, e, rw (e, pop_locked), rw (e, pop_locked), rw (e, pop_locked))

  -- The three ways to take one element agree. On an empty queue `tryGetFront` returns nothing, its
  -- overload leaves the output alone and returns false, and `getFront` throws, and the queue stays
  -- as it was; else all three give the front, and leave the rest with its size.
  pub front_agree : (q : Queue A) (element : A) → Fronts q element
  front_agree q element = fronts q.items q element refl
