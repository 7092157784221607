-- ===== src/SimpleContainer/Order.antt =====
-- simple_container_V2.h: a selection that only takes or skips is a filter.
use thread_component.Prelude.{
  ℕ, zero, suc, ◌+◌, ◌≡◌, refl, sym, ap, ◌∙◌, inl, inr, Bool, true, false, some, List, [], ◌∷◌,
  ◌++◌, append-nil, append_assoc, arith, if◌then◌else◌, ltb, leb, length, length-append, take, min,
  Bool-cases, suc-ne-zero, take-append-drop, take_all,
}
use thread_component.SimpleContainer.Selection.{before_offset, from_offset}
use thread_component.SimpleContainer.{
  skip, grab, returned, SelectionFn, grab_loop, grab_select, snapshot_loop, snapshot,
}

module _ {ℓ} {A : Type ℓ} (p : A → Bool) where
  -- A selection function that takes what meets the test and skips the rest.
  abbrev pub select_if : SelectionFn A (Unit {0})
  select_if s x = (if p x then grab else skip, s)

  unfoldable pub filter : List A → List A
  filter [] = []
  filter (x ∷ xs) = if p x then x ∷ filter xs else filter xs

  -- The list without its first `n` elements that meet the test.
  unfoldable pub remove_first : ℕ → List A → List A
  remove_first zero xs = xs
  remove_first (suc n) [] = []
  remove_first (suc n) (x ∷ xs) = elim (p x) [
    | true ↦ remove_first n xs
    | false ↦ x ∷ remove_first (suc n) xs
  ]

  grab_loop-filter :
      (count n : ℕ) (passed taken current : List A)
      → length taken + suc n ≡ count
      → grab_loop select_if tt count passed taken current ≡ (
        returned (taken ++ take (suc n) (filter current)),
        passed ++ remove_first (suc n) current,
      )
  unfolding grab_loop filter remove_first
  grab_loop-filter count n passed taken [] e = rw (append-nil taken, append-nil passed)
  grab_loop-filter count n passed taken (x ∷ current) e = elim (Bool-cases (p x)) [
    | inr out ↦
        rw (out, grab_loop, remove_first)
          (grab_loop-filter count n (passed ++ x ∷ []) taken current e ∙ rw append_assoc)
    | inl met ↦
        rw (met, grab_loop, remove_first)
          (taken_case n e (λ m. grab_loop-filter count m passed (taken ++ x ∷ []) current))
  ]
    where
      taken_case :
          (n : ℕ)
          → length taken + suc n ≡ count
          → ((m : ℕ)
              → length (taken ++ x ∷ []) + suc m ≡ count
              → grab_loop select_if tt count passed (taken ++ x ∷ []) current ≡ (
                returned ((taken ++ x ∷ []) ++ take (suc m) (filter current)),
                passed ++ remove_first (suc m) current,
              ))
          → (if leb count (length (taken ++ x ∷ []))
              then (returned (taken ++ x ∷ []), passed ++ current)
              else grab_loop select_if tt count passed (taken ++ x ∷ []) current)
            ≡ (returned (taken ++ x ∷ take n (filter current)), passed ++ remove_first n current)
      taken_case zero e ih =
          let full : leb count (length (taken ++ x ∷ [])) ≡ true =
            ground (arith, length-append taken (x ∷ [])) in
          rw full refl
      taken_case (suc n) e ih =
          let more : leb count (length (taken ++ x ∷ [])) ≡ false =
            ground (arith, length-append taken (x ∷ [])) in
          rw more (ih n (omega (arith, length-append taken (x ∷ []))) ∙ rw append_assoc)

  -- A selection that takes what meets a test and skips the rest returns the first `count` such items
  -- from the offset on, in order, or all if there are fewer, and leaves the others, in order.
  pub grab_select-filter :
      (count offset : ℕ) (m_items : List A)
      → grab_select count (some select_if) tt offset m_items ≡ (
        returned (take count (filter (from_offset offset m_items))),
        before_offset offset m_items ++ remove_first count (from_offset offset m_items),
      )
  unfolding grab_select remove_first
  grab_select-filter zero offset m_items =
      rw (take-append-drop (min offset (length m_items)) m_items)
  grab_select-filter (suc n) offset m_items = rw (suc-ne-zero n) (
      grab_loop-filter (suc n) n (before_offset offset m_items) [] (from_offset offset m_items)
        (omega arith))

module _ {ℓ} {A : Type ℓ} where
  snapshot_loop-take :
      (count n : ℕ) (result current : List A)
      → length result + n ≡ count
      → snapshot_loop count result current ≡ result ++ take n current
  unfolding snapshot_loop
  snapshot_loop-take count n result [] e =
      rw (take_all {A = A} n [] (omega arith)) (sym (append-nil result))
  snapshot_loop-take count zero result (x ∷ current) e =
      let full : ltb (length result) count ≡ false = ground arith in
      rw full (sym (append-nil result))
  snapshot_loop-take count (suc n) result (x ∷ current) e =
      let more : ltb (length result) count ≡ true = ground arith in
      rw more (
        snapshot_loop-take count n (result ++ x ∷ []) current
          (omega (arith, length-append result (x ∷ [])))
        ∙ rw append_assoc)

  filter_all : (xs : List A) → filter (λ _. true) xs ≡ xs
  unfolding filter
  filter_all [] = refl
  filter_all (x ∷ xs) = ap (◌∷◌ x) (filter_all xs)

  -- `snapshot` shows the items that a `grab` of everything, with the same limit and offset, returns.
  pub snapshot-eq-grab :
      (count offset : ℕ) (m_items : List A)
      → (grab_select count (some (select_if (λ _. true))) tt offset m_items).0
        ≡ returned (snapshot count offset m_items)
  unfolding snapshot
  snapshot-eq-grab count offset m_items = rw (
    grab_select-filter (λ _. true) count offset m_items,
    filter_all (from_offset offset m_items),
    snapshot_loop-take count count [] (from_offset offset m_items) (omega arith),
  )
