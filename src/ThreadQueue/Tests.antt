-- ===== src/ThreadQueue/Tests.antt =====
-- Runs of a small queue, and the theorems at concrete inputs.
use thread_component.Prelude.{ℕ, ◌≡◌, refl, List, [], ◌∷◌, ◌++◌, if◌then◌else◌, ◌==◌}
use thread_component.ThreadQueue.{
  Queue, new, push, push_queue, try_get_front, get_front, get_front_count,
}
use thread_component.ThreadQueue.Call
use thread_component.ThreadQueue.Call.{Call, pushes, pushes_queue, tries, gets, gets_count, run}
use thread_component.ThreadQueue.Move.{Store}
use thread_component.ThreadQueue.Fifo.{run_fifo, pop_each, get_front_count-eq-pop_each}

abbrev calls : List (Call ℕ)
calls =
    pushes 1 ∷ pushes_queue (2 ∷ 3 ∷ 4 ∷ []) ∷ tries ∷ gets_count 2 ∷ gets ∷ gets ∷ pushes 5 ∷ []

abbrev three : Queue ℕ
three = record { items = 7 ∷ 8 ∷ 9 ∷ []; queue_size = 3 }

abbrev two_queues : Store ℕ
two_queues address = if address == 1 then three else new

run-calls : run calls new ≡ (1 ∷ 2 ∷ 3 ∷ 4 ∷ [], record { items = 5 ∷ []; queue_size = 1 })
unfolding run Call.step push push_queue try_get_front get_front get_front_count
run-calls = refl

run_fifo_example :
    7 ∷ 8 ∷ 9 ∷ 1 ∷ 2 ∷ 3 ∷ 4 ∷ 5 ∷ [] ≡ (run calls three).0 ++ (run calls three).1.items
unfolding Call.entered Call.enters
run_fifo_example = run_fifo calls three

get_front_count-eq-pop_each_example : get_front_count 5 three ≡ pop_each 5 three
get_front_count-eq-pop_each_example = get_front_count-eq-pop_each 5 three refl
