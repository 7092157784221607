-- ===== src/HttpServer/Copies.antt =====
-- cHTTPServer.cpp: the copies of a `cResponse` that a handler keeps, on several threads.
-- A destructor reads `responded`, then `use_count`, and releases its share after that; between these
-- another copy can move.
use thread_component.Prelude.{
  ℕ, suc, ◌+◌, ◌-◌, Bool, true, false, List, [], ◌∷◌, ◌==◌, if◌then◌else◌, ltb,
}
use thread_component.HttpServer.Answer.{Answer, ResponseState, new, bodiless, write}

-- The state that the copies share; how many are in use, have found that nothing was written, and are
-- about to release their share.
pub record Copies : Type 0 where
  pub state : ResponseState
  pub held : ℕ
  pub checked : ℕ
  pub releasing : ℕ

-- The copy that the function of a route makes.
abbrev pub one : Copies
one = record { state = new; held = 1; checked = 0; releasing = 0 }

-- `use_count`.
abbrev pub use_count : Copies → ℕ
use_count s = s.held + s.checked + s.releasing

-- What a copy does. To make a response from another that is then empty leaves as many copies as there
-- were; an assignment to a copy is no move here.
pub data Move : Type 0 where
  copies : Move
  writes : Answer → Move
  loads_responded : Move
  reads_use_count : Move
  releases : Move

-- A move that no copy can make changes nothing.
unfoldable pub move : Move → Copies → Copies
unfolding write
move copies s = if s.held == 0 then s else record s { held = suc s.held }
move (writes a) s = if s.held == 0 then s else record s { state = write a s.state }
move loads_responded s =
    if s.held == 0
    then s
    else if s.state.responded
    then record s { held = s.held - 1; releasing = suc s.releasing }
    else record s { held = s.held - 1; checked = suc s.checked }
move reads_use_count s = if s.checked == 0 then s else record s {
  state = if use_count s == 1 then write (bodiless 204 []) s.state else s.state;
  checked = s.checked - 1;
  releasing = suc s.releasing;
}
move releases s = if s.releasing == 0 then s else record s { releasing = s.releasing - 1 }

unfoldable pub moves : List Move → Copies → Copies
unfolding move
moves [] s = s
moves (m ∷ ms) s = moves ms (move m s)

-- Whether a destructor begins while another is under way.
unfoldable pub overlaps : Move → Copies → Bool
overlaps loads_responded s = ltb 0 (s.checked + s.releasing)
overlaps _ s = false

unfoldable pub some_overlap : List Move → Copies → Bool
unfolding overlaps move
some_overlap [] s = false
some_overlap (m ∷ ms) s =
    let rest = some_overlap ms (move m s) in if overlaps m s then true else rest

-- The first answer that a copy writes, or else that of a destructor.
unfoldable pub first_written : List Move → Copies → Answer
unfolding move
first_written [] s = bodiless 204 []
first_written (writes a ∷ ms) s =
    let rest = first_written ms (move (writes a) s) in if s.held == 0 then rest else a
first_written (m ∷ ms) s = first_written ms (move m s)
