-- ===== src/SimpleContainer/Tests.antt =====
-- The theorems on the container at small concrete inputs.
use thread_component.Prelude.{
  ℕ, ◌+◌, ◌≡◌, ◌%◌, refl, Bool, some, List, [], ◌∷◌, if◌then◌else◌, ◌==◌, false,
}
use thread_component.SimpleContainer.{
  skip, grab, stop_and_requeue, throws, returned, SelectionFn, grab_loop, grab_select,
  grab_all_select, grab_count_select, grab_offset_select, insert, clear, reserve, empty, size,
}
use thread_component.SimpleContainer.Conservation.{Selects, grab_select-Selects}
use thread_component.SimpleContainer.Order.{select_if}

abbrev items : List ℕ
items = 4 ∷ 5 ∷ 6 ∷ 7 ∷ 8 ∷ 0 ∷ 2 ∷ []

abbrev is_even : ℕ → Bool
is_even n = n % 2 == 0

-- Takes even numbers, stops and requeues at 0, throws at 5 when it has been asked once before.
abbrev even_until_zero : SelectionFn ℕ ℕ
even_until_zero s n = (if n == 0 then stop_and_requeue else if is_even n then grab else skip, s + 1)

abbrev throws_at_five : SelectionFn ℕ ℕ
throws_at_five s n = (if n == 5 then throws else grab, s)

requeued :
    grab_select 9 (some even_until_zero) 0 1 items ≡ (returned [], 4 ∷ 5 ∷ 7 ∷ 0 ∷ 2 ∷ 6 ∷ 8 ∷ [])
unfolding grab_select grab_loop
requeued = refl

overloads :
    (grab_all_select (some (select_if is_even)) tt items
      ≡ (returned (4 ∷ 6 ∷ 8 ∷ 0 ∷ 2 ∷ []), 5 ∷ 7 ∷ []))
    × (grab_count_select 2 (some (select_if is_even)) tt items
        ≡ (returned (4 ∷ 6 ∷ []), 5 ∷ 7 ∷ 8 ∷ 0 ∷ 2 ∷ []))
    × (grab_offset_select (some (select_if is_even)) tt 3 items
        ≡ (returned (8 ∷ 0 ∷ 2 ∷ []), 4 ∷ 5 ∷ 6 ∷ 7 ∷ []))
unfolding grab_all_select grab_count_select grab_offset_select grab_select grab_loop
overloads = (refl, refl, refl)

small_operations :
    (insert {A = ℕ} 9 false (1 ∷ []) ≡ 9 ∷ 1 ∷ [])
    × (clear items ≡ [])
    × (reserve 100 items ≡ items)
    × (empty items ≡ false)
    × (size items ≡ 7)
unfolding insert clear reserve empty size
small_operations = (refl, refl, refl, refl, refl)

grab_select-Selects_example : Selects 9 1 items (grab_select 9 (some even_until_zero) 0 1 items)
grab_select-Selects_example = grab_select-Selects 9 (some even_until_zero) 0 1 items
