-- ===== src/ThreadQueue.antt =====
-- cThreadQueue_V2.h: a queue behind a mutex, with a size that is read without the lock.
-- Each method holds the lock from its first access to its last, so a method is one step on the
-- state, and a history of concurrent calls is a list of calls in the order of their locks.
pub mod Call
pub mod CachedSize
pub mod Fifo
pub mod Move
mod Tests
use thread_component.Prelude.{
  ℕ, zero, suc, ◌-◌, Bool, true, false, Option, none, some, List, [], ◌∷◌, ◌++◌, if◌then◌else◌,
  ◌==◌, ltb, length, is_nil, not, ◌&&◌,
}

-- `items` is `m_queue`, its front first; `queue_size` is the atomic `m_queueSize`.
pub record Queue {ℓ} (A : Type ℓ) : Type ℓ where
  pub items : List A
  pub queue_size : ℕ

-- A popped value, or the `std::underflow_error` of `getFront`.
pub data Popped {ℓ} (A : Type ℓ) : Type ℓ where
  value : A → Popped A
  underflow_error : Popped A

module _ {ℓ} {A : Type ℓ} where
  abbrev pub new : Queue A
  new = record { items = []; queue_size = 0 }

  pub sync_cached_size_locked : Queue A → Queue A
  sync_cached_size_locked q = record q { queue_size = length q.items }

  pub clear : Queue A → Queue A
  clear q = record { items = []; queue_size = 0 }

  pub push : A → Queue A → Queue A
  unfolding sync_cached_size_locked
  push element q = sync_cached_size_locked (record q { items = q.items ++ element ∷ [] })

  -- The loop of `push(std::queue)`: the front of `elements` is pushed and popped until none is left.
  push_loop : List A → List A → List A
  push_loop [] queue = queue
  push_loop (element ∷ elements) queue = push_loop elements (queue ++ element ∷ [])

  pub push_queue : List A → Queue A → Queue A
  unfolding push_loop sync_cached_size_locked
  push_queue elements q =
      if is_nil elements
      then q
      else sync_cached_size_locked (record q { items = push_loop elements q.items })

  -- The element is constructed in place from the arguments.
  pub emplace {κ} : {Args : Type κ} → (Args → A) → Args → Queue A → Queue A
  unfolding sync_cached_size_locked
  emplace construct args q =
      sync_cached_size_locked (record q { items = q.items ++ construct args ∷ [] })

  pub assign_queue : List A → Queue A → Queue A
  unfolding sync_cached_size_locked
  assign_queue queue q = sync_cached_size_locked (record q { items = queue })

  pop_locked : List A → Queue A → Option A × Queue A
  unfolding sync_cached_size_locked
  pop_locked [] q = (none, q)
  pop_locked (element ∷ rest) q =
      (some element, sync_cached_size_locked (record q { items = rest }))

  pub try_get_front : Queue A → Option A × Queue A
  unfolding pop_locked
  try_get_front q = pop_locked q.items q

  -- The overload with an output reference: its value afterwards, and the flag returned.
  pub try_get_front_into : A → Queue A → A × Bool × Queue A
  unfolding try_get_front
  try_get_front_into element q =
      let (popped, q') = try_get_front q in
      elim popped [ none ↦ (element, false, q') | some v ↦ (v, true, q') ]

  pub get_front : Queue A → Popped A × Queue A
  unfolding try_get_front
  get_front q =
      let (popped, q') = try_get_front q in
      elim popped [ none ↦ (underflow_error, q') | some v ↦ (value v, q') ]

  -- The loop of `getFront(elementCount)`: the elements moved out so far, and what the queue holds.
  front_loop : ℕ → List A → List A → List A × List A
  front_loop zero elements queue = (elements, queue)
  front_loop (suc n) elements [] = (elements, [])
  front_loop (suc n) elements (x ∷ queue) = front_loop n (elements ++ x ∷ []) queue

  pub get_front_count : ℕ → Queue A → List A × Queue A
  unfolding front_loop sync_cached_size_locked
  get_front_count element_count q =
      if element_count == 0
      then ([], q)
      else (let (elements, queue) = front_loop element_count [] q.items in
          (elements, sync_cached_size_locked (record q { items = queue })))

  pub get_all : Queue A → List A × Queue A
  get_all q = (q.items, record { items = []; queue_size = 0 })

  pub size : Bool → Queue A → ℕ
  size use_cached q = if use_cached then q.queue_size else length q.items

  pub empty : Bool → Queue A → Bool
  unfolding size
  empty use_cached q = size use_cached q == 0
