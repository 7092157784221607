-- ===== src/HttpServer/Reader.antt =====
-- cHTTPServer.cpp: a reader of responses.
use thread_component.Prelude.{
  ℕ, zero, suc, ◌≡◌, refl, ap, false, Option, none, some, List, [], ◌∷◌, ◌++◌, ◌&&◌, is_nil,
  if◌then◌else◌, ◌==◌,
}
use thread_component.HttpClient.Text.{Text}
use thread_component.HttpServer.Answer.{Field}
use thread_component.HttpServer.Response.{crlf, header_line}

-- A reader of responses, as RFC 9112 describes it: a line ends with a carriage return and a line feed,
-- and the head ends with an empty line.
abbrev cons_line : ℕ → Option (Text × Text) → Option (Text × Text)
cons_line c none = none
cons_line c (some (line, rest)) = some (c ∷ line, rest)

unfoldable pub read_line : Text → Option (Text × Text)
read_line [] = none
read_line (c ∷ []) = none
read_line (c ∷ d ∷ xs) =
    let r = read_line (d ∷ xs) in if c == 13 && d == 10 then some ([], xs) else cons_line c r

abbrev pub cons_head : Text → Option (List Text × Text) → Option (List Text × Text)
cons_head line none = none
cons_head line (some (lines, rest)) = some (line ∷ lines, rest)

-- The lines of the head, and what stands behind it.
unfoldable pub read_head : ℕ → Text → Option (List Text × Text)
unfolding read_line
read_head zero xs = none
read_head (suc fuel) xs = elim (read_line xs) [
  | none ↦ none
  | some r ↦ if is_nil r.0 then some ([], r.1) else cons_head r.0 (read_head fuel r.1)
]

abbrev pub IsLine : Text → Type 0
IsLine [] = Unit
IsLine (c ∷ xs) = ((c == 13) ≡ false) × IsLine xs

pub read_line-append :
    (line rest : Text) → IsLine line → read_line (line ++ (crlf ++ rest)) ≡ some (line, rest)
unfolding read_line
read_line-append [] rest h = refl
read_line-append (c ∷ []) rest (h, _) = rw h refl
read_line-append (c ∷ d ∷ xs) rest (h, k) =
    rw h (ap (cons_line c) (read_line-append (d ∷ xs) rest k))

-- What `read_head` does with the result of `read_line`.
abbrev head_from : ℕ → Option (Text × Text) → Option (List Text × Text)
head_from fuel o = elim o [
  | none ↦ none
  | some r ↦ if is_nil r.0 then some ([], r.1) else cons_head r.0 (read_head fuel r.1)
]

pub read_head-line :
    (fuel c : ℕ) (line rest : Text)
    → IsLine (c ∷ line)
    → read_head (suc fuel) ((c ∷ line) ++ (crlf ++ rest))
      ≡ cons_head (c ∷ line) (read_head fuel rest)
unfolding read_head
read_head-line fuel c line rest h = ap (head_from fuel) (read_line-append (c ∷ line) rest h)

pub read_head-end : (fuel : ℕ) (rest : Text) → read_head (suc fuel) (crlf ++ rest) ≡ some ([], rest)
unfolding read_head read_line
read_head-end fuel rest = refl

pub IsLine-append : (xs ys : Text) → IsLine xs → IsLine ys → IsLine (xs ++ ys)
IsLine-append [] ys h k = k
IsLine-append (c ∷ xs) ys (e, h) k = (e, IsLine-append xs ys h k)

-- The lines of the headers that are written.
abbrev pub lines_of : List Field → List Text
lines_of [] = []
lines_of (h ∷ headers) =
    let rest = lines_of headers in if is_nil h.name then rest else header_line h.name h.value ∷ rest

abbrev pub AreLines : List Field → Type 0
AreLines [] = Unit
AreLines (h ∷ headers) = (IsLine h.name × IsLine h.value) × AreLines headers
