-- ===== src/HttpClient/Text.antt =====
-- cHTTPClient.cpp: the helpers on texts, with `isspace` and `tolower` of the C locale.
use thread_component.Prelude.{
  ℕ, zero, suc, ◌+◌, ◌-◌, Bool, true, false, Option, none, some, List, [], ◌∷◌, ◌&&◌, ◌||◌, not,
  if◌then◌else◌, ◌==◌, ltb, leb, length, take, drop,
}

abbrev pub Text : Type 0
Text = List ℕ

unfoldable pub is_space : ℕ → Bool
is_space ch = ch == 32 || (leb 9 ch && leb ch 13)

unfoldable pub to_lower : ℕ → ℕ
to_lower ch = if leb 65 ch && leb ch 90 then ch + 32 else ch

-- `text[i]` within the text.
unfoldable pub char_at : Text → ℕ → ℕ
char_at [] i = 0
char_at (x ∷ text) zero = x
char_at (x ∷ text) (suc i) = char_at text i

-- The loop that moves `begin`, over what stands from it on.
unfoldable pub begin_loop : Text → ℕ
begin_loop [] = 0
begin_loop (x ∷ text) = let more = begin_loop text in if is_space x then suc more else 0

-- The loop that moves `end`.
unfoldable pub end_loop : Text → ℕ → ℕ → ℕ
end_loop text begin zero = zero
end_loop text begin (suc end) =
    let less = end_loop text begin end in
    if ltb begin (suc end) && is_space (char_at text end) then less else suc end

unfoldable pub trim_copy : Text → Text
trim_copy text =
    let begin = begin_loop text in
    let end = end_loop text begin (length text) in take (end - begin) (drop begin text)

-- The comparing loop, over texts of one length.
unfoldable pub iequals_loop : Text → Text → Bool
iequals_loop (x ∷ lhs) (y ∷ rhs) =
    let rest = iequals_loop lhs rhs in if not (to_lower x == to_lower y) then false else rest
iequals_loop _ _ = true

unfoldable pub iequals : Text → Text → Bool
iequals lhs rhs = if not (length lhs == length rhs) then false else iequals_loop lhs rhs

-- Equality of texts.
unfoldable pub text_eq : Text → Text → Bool
text_eq [] [] = true
text_eq (x ∷ lhs) (y ∷ rhs) = x == y && text_eq lhs rhs
text_eq _ _ = false

-- What stands before the first `:` and behind it.
unfoldable pub split_colon : Text → Option (Text × Text)
split_colon [] = none
split_colon (x ∷ text) =
    let more = split_colon text in
    if x == 58
    then some ([], text)
    else elim more [ none ↦ none | some (before, after) ↦ some (x ∷ before, after) ]
