-- ===== src/SimpleContainer.antt =====
-- simple_container_V2.h: a sequence behind a mutex, with batches, selection and waiting.
-- Each method holds the lock throughout (the timed `grab` waits without it), so a method is one
-- step on the sequence. The sequence is a list, its `begin()` first; what the element moves do to
-- capacity and iterators is not modelled.
pub mod Selection
pub mod Conservation
pub mod Order
pub mod Batch
mod Scenarios
mod Tests
use thread_component.Prelude.{
  ℕ, ◌-◌, min, Bool, true, false, Option, none, some, List, [], ◌∷◌, ◌++◌, if◌then◌else◌, ◌==◌, leb,
  ltb, ◌&&◌, ◌||◌, length, take, drop, is_nil, not,
}

-- `std::numeric_limits<size_type>::max()` of a 64-bit `size_type`.
abbrev pub size_max : ℕ
size_max = 18446744073709551615

-- What the selection function answers; its fourth answer here is that it throws.
pub data Select : Type 0 where
  skip grab stop stop_and_requeue throws : Select

-- How a `grab` ends: it returns a container, or the exception of the selection function passes.
pub data Grabbed {ℓ} (A : Type ℓ) : Type ℓ where
  returned : List A → Grabbed A
  threw : Grabbed A

module _ {ℓ} {A : Type ℓ} where
  pub clear : List A → List A
  clear m_items = []

  -- `reserve` changes the capacity only.
  pub reserve : ℕ → List A → List A
  reserve count m_items = m_items

  insert_item_unlocked : A → Bool → List A → List A
  insert_item_unlocked item insert_back m_items =
      if insert_back then m_items ++ item ∷ [] else item ∷ m_items

  pub insert_many_unlocked : List A → Bool → List A → List A
  insert_many_unlocked items insert_back m_items =
      if insert_back then m_items ++ items else items ++ m_items

  pub insert : A → Bool → List A → List A
  unfolding insert_item_unlocked
  insert item insert_back m_items = insert_item_unlocked item insert_back m_items

  -- Both overloads, which move or copy the items.
  pub insert_many : List A → Bool → List A → List A
  unfolding insert_many_unlocked
  insert_many items insert_back m_items =
      if is_nil items then m_items else insert_many_unlocked items insert_back m_items

  requeue_unlocked : List A → Bool → List A → List A
  unfolding insert_many_unlocked
  requeue_unlocked items insert_back m_items =
      if is_nil items then m_items else insert_many_unlocked items insert_back m_items

  pub grab_items_unlocked : ℕ → List A → List A × List A
  grab_items_unlocked count m_items =
      let actual_count = min count (length m_items) in
      (take actual_count m_items, drop actual_count m_items)

  pub grab_count : ℕ → List A → List A × List A
  grab_count count m_items = grab_items_unlocked count m_items

  -- The items are those found when the wait ends: other threads may have changed them meanwhile.
  pub grab_timed : ℕ → List A → List A × List A
  grab_timed count m_items =
      if is_nil m_items then ([], m_items) else grab_items_unlocked count m_items

  -- `snapshot` walks from the offset until the end, or until it has `count` items.
  snapshot_loop : ℕ → List A → List A → List A
  snapshot_loop count result [] = result
  snapshot_loop count result (x ∷ current) =
      let more = snapshot_loop count (result ++ x ∷ []) current in
      if ltb (length result) count then more else result

  pub snapshot : ℕ → ℕ → List A → List A
  unfolding snapshot_loop
  snapshot count offset m_items =
      snapshot_loop count [] (drop (min offset (length m_items)) m_items)

  pub empty : List A → Bool
  empty m_items = is_nil m_items

  pub size : List A → ℕ
  size m_items = length m_items

-- A selection function, which may keep a state of its own between the elements.
abbrev pub SelectionFn {ℓ κ} : Type ℓ → Type κ → Type (ℓ ⊔ κ)
SelectionFn A S = S → A → Select × S

module _ {ℓ κ} {A : Type ℓ} {S : Type κ} where
  -- The loop of `grab`: `passed` is what stands before the iterator, `current` what it has before it,
  -- and `taken` is the container to return. An exception destroys that container.
  pub grab_loop : SelectionFn A S → S → ℕ → List A → List A → List A → Grabbed A × List A
  unfolding requeue_unlocked
  grab_loop fn s count passed taken [] = (returned taken, passed)
  grab_loop fn s count passed taken (x ∷ current) =
      let (answer, s') = fn s x in
      let skipped = grab_loop fn s' count (passed ++ x ∷ []) taken current in
      let grabbed = grab_loop fn s' count passed (taken ++ x ∷ []) current in
      elim answer [
        | stop_and_requeue ↦ (returned [], requeue_unlocked taken true (passed ++ x ∷ current))
        | stop ↦ (returned taken, passed ++ x ∷ current)
        | grab ↦
            if leb count (length (taken ++ x ∷ []))
            then (returned (taken ++ x ∷ []), passed ++ current)
            else grabbed
        | skip ↦ skipped
        | throws ↦ (threw, passed ++ x ∷ current)
      ]

  -- `fn` is `none` where the `std::function` is empty.
  pub grab_select : ℕ → Option (SelectionFn A S) → S → ℕ → List A → Grabbed A × List A
  grab_select count none s offset m_items = (returned [], m_items)
  grab_select count (some fn) s offset m_items =
      if count == 0
      then (returned [], m_items)
      else (let start = min offset (length m_items) in
          grab_loop fn s count (take start m_items) [] (drop start m_items))

  pub grab_all_select : Option (SelectionFn A S) → S → List A → Grabbed A × List A
  grab_all_select fn s m_items = grab_select size_max fn s 0 m_items

  pub grab_count_select : ℕ → Option (SelectionFn A S) → S → List A → Grabbed A × List A
  grab_count_select count fn s m_items = grab_select count fn s 0 m_items

  pub grab_offset_select : Option (SelectionFn A S) → S → ℕ → List A → Grabbed A × List A
  grab_offset_select fn s offset m_items = grab_select size_max fn s offset m_items
