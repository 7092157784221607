-- ===== src/ThreadQueue/Move.antt =====
-- cThreadQueue_V2.h: moving a queue into another. The queues stand in a store under their
-- addresses, so that source and target may be one object.
use thread_component.Prelude.{ℕ, ◌≡◌, ◌≢◌, [], arith, if◌then◌else◌, ◌==◌, length}
use thread_component.ThreadQueue.{Queue, new, sync_cached_size_locked}

-- The queues by their addresses.
abbrev pub Store {ℓ} : Type ℓ → Type ℓ
Store A = ℕ → Queue A

module _ {ℓ} {A : Type ℓ} where
  abbrev pub update : Store A → ℕ → Queue A → Store A
  update store p q r = if r == p then q else store r

  -- What `m_queue = std::move(other.m_queue)` leaves in the source is unspecified, and the source
  -- is emptied after it; both locks are held.
  pub move_from : ℕ → ℕ → Store A → Store A
  unfolding sync_cached_size_locked
  move_from this other store =
      let moved = sync_cached_size_locked (record (store this) { items = (store other).items }) in
      update (update store this moved) other (record { items = []; queue_size = 0 })

  -- The constructor makes a new queue at a free address.
  pub move_construct : ℕ → ℕ → Store A → Store A
  move_construct this other store = move_from this other (update store this new)

  pub move_assign : ℕ → ℕ → Store A → Store A
  move_assign this other store = if this == other then store else move_from this other store

  -- Move assignment from itself changes nothing. From another queue it gives the target the
  -- source's elements with the right cached size, empties the source, and changes no third queue.
  pub move_assign-eq :
      (this other r : ℕ) (store : Store A)
      → move_assign this other store r ≡ (
          if this == other
          then store r
          else if r == this
          then record { items = (store other).items; queue_size = length (store other).items }
          else if r == other
          then new
          else store r)
  unfolding move_assign move_from
  move_assign-eq this other r store = ground arith

  -- A queue that is constructed by a move, at an address of its own, takes the elements of its
  -- source with the right cached size; the source is left empty, and no third queue changes.
  pub move_construct-eq :
      (this other r : ℕ) (store : Store A)
      → this ≢ other
      → move_construct this other store r ≡ (
          if r == this
          then record { items = (store other).items; queue_size = length (store other).items }
          else if r == other
          then new
          else store r)
  unfolding move_construct move_from
  move_construct-eq this other r store n = ground arith
