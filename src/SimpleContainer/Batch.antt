-- ===== src/SimpleContainer/Batch.antt =====
-- simple_container_V2.h: batches in and out.
use thread_component.Prelude.{
  ℕ, ◌≡◌, refl, sym, Bool, true, false, List, [], ◌∷◌, ◌++◌, append-nil, arith, min, length,
  length-append, length-take, drop, take_all, drop_all, take-append-drop, take-length-append,
  if◌then◌else◌,
}
use thread_component.SimpleContainer.{insert_many, grab_items_unlocked, grab_count, grab_timed}

module _ {ℓ} {A : Type ℓ} where
  -- A `grab` of `count` items returns that many from the front, or all if there are fewer, and leaves
  -- the rest; the timed `grab` does the same with what it finds when its wait is over.
  pub grab_count_lem :
      (count : ℕ) (m_items : List A)
      → let r = grab_count count m_items in
        (r.0 ++ r.1 ≡ m_items)
        × (length r.0 ≡ min count (length m_items))
        × (grab_timed count m_items ≡ r)
  unfolding grab_count grab_timed grab_items_unlocked
  grab_count_lem count m_items = (
    take-append-drop (min count (length m_items)) m_items,
    omega (arith, length-take (min count (length m_items)) m_items),
    timed m_items,
  )
    where
      timed : (l : List A) → grab_timed count l ≡ grab_count count l
      timed [] = rw (
        take_all {A = A} (min count 0) [] (omega arith),
        drop_all {A = A} (min count 0) [] (omega arith),
      )
      timed (x ∷ l) = refl

  drop-length-append : (xs ys : List A) → drop (length xs) (xs ++ ys) ≡ ys
  drop-length-append [] ys = refl
  drop-length-append (x ∷ xs) ys = drop-length-append xs ys

  insert_many-append :
      (items : List A) (back : Bool) (m_items : List A)
      → insert_many items back m_items ≡ (if back then m_items ++ items else items ++ m_items)
  unfolding insert_many
  insert_many-append [] true m_items = sym (append-nil m_items)
  insert_many-append [] false m_items = refl
  insert_many-append (x ∷ items) back m_items = refl

  grab_count-append : (xs ys : List A) → grab_count (length xs) (xs ++ ys) ≡ (xs, ys)
  unfolding grab_count grab_items_unlocked
  grab_count-append xs ys =
      let e : min (length xs) (length (xs ++ ys)) ≡ length xs =
        omega (arith, length-append xs ys) in
      rw (e, take-length-append xs ys, drop-length-append xs ys)

  -- A batch that is inserted at the front comes out first and whole, in its order, and leaves the
  -- old items; one inserted at the back stays behind, whole and in its order, when the old items
  -- are taken.
  pub grab_count-insert_many :
      (items m_items : List A)
      → (grab_count (length items) (insert_many items false m_items) ≡ (items, m_items))
        × (grab_count (length m_items) (insert_many items true m_items) ≡ (m_items, items))
  grab_count-insert_many items m_items = (
    rw (insert_many-append items false m_items) (grab_count-append items m_items),
    rw (insert_many-append items true m_items) (grab_count-append m_items items),
  )
