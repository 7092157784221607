-- ===== src/SimpleContainer/Scenarios.antt =====
-- examples/cTestSimpleContainer_V2.cpp: the test cases of the repository, as Boolean functions in
-- which each `REQUIRE` is a conjunct, and their results. The case that measures time is left out; in
-- the one with a producer, its item is there when the wait ends. The three base containers are one
-- list here.
use thread_component.Prelude.{
  ℕ, ◌≡◌, ◌%◌, refl, Bool, true, false, some, List, [], ◌∷◌, ◌&&◌, if◌then◌else◌, ◌==◌, leb,
}
use thread_component.SimpleContainer.{
  size_max, grab_items_unlocked, insert_many_unlocked, skip, grab, stop, stop_and_requeue, returned,
  threw, Select, Grabbed, SelectionFn, grab_count, grab_timed, grab_select, grab_loop, insert,
  insert_many, snapshot, empty, size, reserve,
}

unfoldable same : {A : Type 0} → (A → A → Bool) → List A → List A → Bool
same eq [] [] = true
same eq [] (y ∷ ys) = false
same eq (x ∷ xs) [] = false
same eq (x ∷ xs) (y ∷ ys) = eq x y && same eq xs ys

unfoldable are : List ℕ → List ℕ → Bool
unfolding same
are xs ys = same (λ m n. m == n) xs ys

unfoldable returns : Grabbed ℕ → List ℕ → Bool
unfolding are
returns (returned xs) ys = are xs ys
returns threw ys = false

-- A selection function without a state.
abbrev selecting : (ℕ → Select) → SelectionFn {0, 0} ℕ Unit
selecting f s n = (f n, s)

-- "V2 single insert and grab across base containers".
unfoldable single_insert_and_grab : Bool
unfolding insert grab_count grab_items_unlocked size empty are
single_insert_and_grab =
    let items = insert 2 true (insert 1 true []) in
    let (grabbed, left) = grab_count 10 items in
    size items == 2 && empty left && size grabbed == 2 && are grabbed (1 ∷ 2 ∷ [])

single_insert_and_grab-run : single_insert_and_grab ≡ true
unfolding single_insert_and_grab
single_insert_and_grab-run = refl

-- "V2 batch insert supports move and copy inputs"; a moved batch is empty afterwards.
unfoldable batch_insert : Bool
unfolding insert_many insert_many_unlocked grab_count grab_items_unlocked size reserve are
batch_insert =
    let moved = insert_many (1 ∷ 2 ∷ 3 ∷ []) true (reserve 8 []) in
    let copied = insert_many (4 ∷ 5 ∷ []) true moved in
    let (all, left) = grab_count 10 copied in
    size moved == 3 && size copied == 5 && size all == 5 && are all (1 ∷ 2 ∷ 3 ∷ 4 ∷ 5 ∷ [])

batch_insert-run : batch_insert ≡ true
unfolding batch_insert
batch_insert-run = refl

-- "V2 timed grab unblocks when producer inserts".
unfoldable timed_grab_unblocks : Bool
unfolding insert grab_timed grab_items_unlocked size empty are
timed_grab_unblocks =
    let (result, left) = grab_timed 1 (insert 99 true []) in
    size result == 1 && are result (99 ∷ []) && empty left

timed_grab_unblocks-run : timed_grab_unblocks ≡ true
unfolding timed_grab_unblocks
timed_grab_unblocks-run = refl

-- "V2 snapshot is non-destructive and supports offsets", with "alpha", "beta" and "gamma".
abbrev alpha : List ℕ
alpha = 97 ∷ 108 ∷ 112 ∷ 104 ∷ 97 ∷ []

abbrev beta : List ℕ
beta = 98 ∷ 101 ∷ 116 ∷ 97 ∷ []

abbrev gamma : List ℕ
gamma = 103 ∷ 97 ∷ 109 ∷ 109 ∷ 97 ∷ []

unfoldable snapshot_with_offset : Bool
unfolding insert snapshot size same are
snapshot_with_offset =
    let items = insert gamma true (insert beta true (insert alpha true [])) in
    let taken = snapshot 2 1 items in
    size items == 3 && size taken == 2 && same are taken (beta ∷ gamma ∷ [])

snapshot_with_offset-run : snapshot_with_offset ≡ true
unfolding snapshot_with_offset
snapshot_with_offset-run = refl

-- "V2 predicate grab honors stop_and_requeue without deadlocking".
abbrev up_to_two : ℕ → Select
up_to_two n = if leb n 2 then grab else if n == 3 then stop_and_requeue else skip

unfoldable grab_with_requeue : Bool
unfolding insert_many grab_select grab_loop snapshot size returns are
grab_with_requeue =
    let items = insert_many (1 ∷ 2 ∷ 3 ∷ 4 ∷ []) true [] in
    let (result, left) = grab_select 10 (some (selecting up_to_two)) tt 0 items in
    let reordered = snapshot size_max 0 left in
    returns result [] && size left == 4 && size reordered == 4 && are reordered (3 ∷ 4 ∷ 1 ∷ 2 ∷ [])

grab_with_requeue-run : grab_with_requeue ≡ true
unfolding grab_with_requeue
grab_with_requeue-run = refl

-- "V2 predicate grab supports stop and offset selection".
abbrev even_until_five : ℕ → Select
even_until_five n = if n % 2 == 0 then grab else if n == 5 then stop else skip

unfoldable grab_with_stop_and_offset : Bool
unfolding insert grab_select grab_loop grab_count grab_items_unlocked size returns are
grab_with_stop_and_offset =
    let items = insert 5 true (insert 4 true (insert 3 true (insert 2 true (insert 1 true [])))) in
    let (result, left) = grab_select 10 (some (selecting even_until_five)) tt 1 items in
    let (remaining, rest) = grab_count 10 left in
    returns result (2 ∷ 4 ∷ []) && size remaining == 3 && are remaining (1 ∷ 3 ∷ 5 ∷ [])

grab_with_stop_and_offset-run : grab_with_stop_and_offset ≡ true
unfolding grab_with_stop_and_offset
grab_with_stop_and_offset-run = refl
