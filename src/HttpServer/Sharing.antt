-- ===== src/HttpServer/Sharing.antt =====
-- cHTTPServer.cpp: what the copies of a `cResponse` write.
use thread_component.Prelude.{
  Bool-cases, inl, inr, ◌+◌, ◌≤◌, ◌≡◌, refl, sym, ap, ◌∙◌, Bool, true, false, List, [], ◌∷◌, ◌&&◌,
  not, length, ◌==◌, arith, if◌then◌else◌,
}
use thread_component.HttpServer.Answer.{Answer, ResponseState, bodiless, write, write-responded}
use thread_component.HttpServer.Copies.{
  Copies, one, use_count, Move, copies, writes, loads_responded, reads_use_count, releases, move,
  moves, overlaps, some_overlap, first_written,
}

-- What was written is what `responded` says.
abbrev IsTold : ResponseState → Type 0
IsTold s = length s.written ≡ (if s.responded then 1 else 0)

write-IsTold :
    (a : Answer) (s : ResponseState)
    → IsTold s
    → IsTold (write a s) × ((write a s).responded ≡ true)
unfolding write
write-IsTold a s h = by_responded s.responded s.written h
  where
    by_responded :
        (b : Bool) (xs : List Answer)
        → length xs ≡ (if b then 1 else 0)
        → let s = write a (record { responded = b; written = xs }) in
          IsTold s × (s.responded ≡ true)
    by_responded true xs h = (h, refl)
    by_responded false [] h = (refl, refl)
    by_responded false (x ∷ xs) h = absurd (omega arith)

move-IsTold : (m : Move) (s : Copies) → IsTold s.state → IsTold (move m s).state
unfolding move
move-IsTold copies s h = ground arith
move-IsTold (writes a) s h = elim (Bool-cases (s.held == 0)) [
  | inl e ↦ rw e h
  | inr e ↦ rw e (write-IsTold a s.state h).0
]
move-IsTold loads_responded s h = ground arith
move-IsTold reads_use_count s h = ground (arith, h, (write-IsTold (bodiless 204 []) s.state h).0)
move-IsTold releases s h = ground arith

moves-IsTold : (ms : List Move) (s : Copies) → IsTold s.state → IsTold (moves ms s).state
unfolding moves
moves-IsTold [] s h = h
moves-IsTold (m ∷ ms) s h = moves-IsTold ms (move m s) (move-IsTold m s h)

-- One destructor at most is under way, and while nothing is written, some copy can still see to it.
abbrev IsKept : Copies → Type 0
IsKept s = (s.checked + s.releasing ≤ 1) × (s.state.responded ≡ false → 1 ≤ s.held + s.checked)

move-IsKept :
    (m : Move) (s : Copies) → IsTold s.state → overlaps m s ≡ false → IsKept s → IsKept (move m s)
unfolding move overlaps
move-IsKept copies s t h (k, l) = (ground arith, ground arith)
move-IsKept (writes a) s t h (k, l) = (ground arith, ground (arith, (write-IsTold a s.state t).1))
move-IsKept loads_responded s t h (k, l) = (ground arith, ground arith)
move-IsKept reads_use_count s t h (k, l) =
    (ground arith, ground (arith, (write-IsTold (bodiless 204 []) s.state t).1))
move-IsKept releases s t h (k, l) = (ground arith, ground arith)

move-unheld : (m : Move) (s : Copies) → s.held ≡ 0 → (move m s).held ≡ 0
unfolding move
move-unheld copies s h = ground (arith, h)
move-unheld (writes a) s h = ground (arith, h)
move-unheld loads_responded s h = ground (arith, h)
move-unheld reads_use_count s h = ground (arith, h)
move-unheld releases s h = ground (arith, h)

first_written-unheld :
    (ms : List Move) (s : Copies) → s.held ≡ 0 → first_written ms s ≡ bodiless 204 []
unfolding first_written
first_written-unheld [] s h = refl
first_written-unheld (copies ∷ ms) s h =
    first_written-unheld ms (move copies s) (move-unheld copies s h)
first_written-unheld (writes a ∷ ms) s h =
    let rest = first_written-unheld ms (move (writes a) s) (move-unheld (writes a) s h) in
    ground (arith, h, rest)
first_written-unheld (loads_responded ∷ ms) s h =
    first_written-unheld ms (move loads_responded s) (move-unheld loads_responded s h)
first_written-unheld (reads_use_count ∷ ms) s h =
    first_written-unheld ms (move reads_use_count s) (move-unheld reads_use_count s h)
first_written-unheld (releases ∷ ms) s h =
    first_written-unheld ms (move releases s) (move-unheld releases s h)

move-responded : (m : Move) (s : Copies) → s.state.responded ≡ true → (move m s).state ≡ s.state
unfolding move
move-responded copies s h = ground arith
move-responded (writes a) s h = ground (arith, write-responded a s.state h)
move-responded loads_responded s h = ground arith
move-responded reads_use_count s h = ground (arith, write-responded (bodiless 204 []) s.state h)
move-responded releases s h = ground arith

moves-responded :
    (ms : List Move) (s : Copies) → s.state.responded ≡ true → (moves ms s).state ≡ s.state
unfolding moves
moves-responded [] s h = refl
moves-responded (m ∷ ms) s h =
    let e = move-responded m s h in moves-responded ms (move m s) (ap (λ t. t.responded) e ∙ h) ∙ e

-- A first write.
write-new :
    (a : Answer) (s : ResponseState)
    → IsTold s
    → s.responded ≡ false
    → write a s ≡ record { responded = true; written = a ∷ [] }
unfolding write
write-new a s t h = by_responded s.responded s.written t h
  where
    by_responded :
        (b : Bool) (xs : List Answer)
        → length xs ≡ (if b then 1 else 0)
        → b ≡ false
        → write a (record { responded = b; written = xs })
          ≡ record { responded = true; written = a ∷ [] }
    by_responded true xs t h = absurd (ground (arith, h))
    by_responded false [] t h = refl
    by_responded false (x ∷ xs) t h = absurd (omega arith)

written_then :
    (a : Answer) (ms : List Move) (s : Copies) (t : ResponseState)
    → IsTold t
    → t.responded ≡ false
    → s.state ≡ write a t
    → (moves ms s).state.written ≡ a ∷ []
written_then a ms s t told h e =
    let e' = e ∙ write-new a t told h in
    ap (λ r. r.written) (moves-responded ms s (ap (λ r. r.responded) e') ∙ e')

-- What the moves leave to be written, from a state where nothing is.
abbrev Settles : List Move → Copies → Type 0
Settles ms s =
    some_overlap ms s ≡ false
    → use_count (moves ms s) ≡ 0
    → (moves ms s).state.written ≡ first_written ms s ∷ []

-- A move that leaves the response unwritten and does not count as a first write.
settle-later :
    (m : Move) (ms : List Move) (s : Copies)
    → Settles ms (move m s)
    → first_written (m ∷ ms) s ≡ first_written ms (move m s)
    → Settles (m ∷ ms) s
unfolding some_overlap moves
settle-later m ms s k e apart done = k (ground arith) done ∙ ap (λ a. a ∷ []) (sym e)

settle_first_or_later :
    (m : Move) (ms : List Move) (s : Copies)
    → IsTold s.state
    → s.state.responded ≡ false
    → ((move m s).state.responded ≡ false → Settles ms (move m s))
    → Settles (m ∷ ms) s
unfolding move moves first_written
settle_first_or_later copies ms s t h rest = settle-later copies ms s (rest (ground arith)) refl
settle_first_or_later loads_responded ms s t h rest =
    settle-later loads_responded ms s (rest (ground arith)) refl
settle_first_or_later releases ms s t h rest = settle-later releases ms s (rest (ground arith)) refl
settle_first_or_later (writes a) ms s t h rest = elim (Bool-cases (s.held == 0)) [
  | inl e ↦ settle-later (writes a) ms s (rest (rw e h)) (rw e refl)
  | inr e ↦ λ apart done. written_then a ms (move (writes a) s) s.state t h (rw e refl) ∙ rw e refl
]
settle_first_or_later reads_use_count ms s t h rest =
    elim (Bool-cases (not (s.checked == 0) && use_count s == 1)) [
      | inl e ↦ λ apart done.
          written_then (bodiless 204 []) ms (move reads_use_count s) s.state t h (ground arith)
          ∙ ap (λ a. a ∷ []) (sym (first_written-unheld ms (move reads_use_count s) (ground arith)))
      | inr e ↦ settle-later reads_use_count ms s (rest (ground arith)) refl
    ]

settles :
    (ms : List Move) (s : Copies)
    → IsTold s.state
    → IsKept s
    → s.state.responded ≡ false
    → Settles ms s
unfolding some_overlap moves
settles [] s t (k, l) h apart done = absurd (ground (arith, l h, done))
settles (m ∷ ms) s t k h apart done =
    settle_first_or_later m ms s t h
      (λ unwritten.
        settles ms (move m s) (move-IsTold m s t) (move-IsKept m s t (ground arith) k) unwritten)
      apart done

-- Whatever the copies of a response do on any threads, in any interleaving, one answer is written at most.
pub moves-at_most_one : (ms : List Move) → length (moves ms one).state.written ≤ 1
moves-at_most_one ms = ground (arith, moves-IsTold ms one refl)

-- The copies of a response on any threads, in any interleaving of their copying, writing and destruction, where no
-- destructor begins while another is under way: when no copy is left, exactly one answer was written,
-- the first that a copy wrote, or a 204 without a body where no copy wrote one.
pub moves-first_written :
    (ms : List Move)
    → some_overlap ms one ≡ false
    → use_count (moves ms one) ≡ 0
    → (moves ms one).state.written ≡ first_written ms one ∷ []
moves-first_written ms = settles ms one refl (omega arith, λ h. omega arith) refl
