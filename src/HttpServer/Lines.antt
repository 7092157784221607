-- ===== src/HttpServer/Lines.antt =====
-- cHTTPServer.cpp and cHTTPClient.cpp: a line of a response, as the client's callback reads it.
use thread_component.Prelude.{
  ℕ, ◌≡◌, refl, sym, ap, ◌∙◌, inl, inr, Bool, true, false, Option, none, some, List, [], ◌∷◌, ◌++◌,
  is_nil, arith, if◌then◌else◌, ◌==◌, Bool-cases, append_assoc,
}
use mathlib.Core.List.{reverse, reverse-append}
use thread_component.HttpClient.Text
use thread_component.HttpClient.Text.{Text, is_space, split_colon, text_eq}
use thread_component.HttpClient.Response.{Header, starts_response, parse_header}
use thread_component.HttpServer.Text.{skip_spaces, trim_copy, trim_copy-same}
use thread_component.HttpServer.Response.{header_line, separator, crlf, version}

-- A name has no colon and no slash.
unfoldable pub is_token : Text → Bool
is_token [] = true
is_token (x ∷ xs) =
    let rest = is_token xs in if x == 58 then false else if x == 47 then false else rest

unfoldable pub has_colon : Text → Bool
has_colon [] = false
has_colon (x ∷ xs) = let rest = has_colon xs in if x == 58 then true else rest

split_colon-token :
    (name rest : Text) → is_token name ≡ true → split_colon (name ++ 58 ∷ rest) ≡ some (name, rest)
unfolding split_colon is_token
split_colon-token [] rest h = refl
split_colon-token (x ∷ name) rest h =
    let other : (x == 58) ≡ false = ground arith in
    rw (other, split_colon-token name rest (ground arith)) refl

pub split_colon-none : (text : Text) → has_colon text ≡ false → split_colon text ≡ none
unfolding split_colon has_colon
split_colon-none [] h = refl
split_colon-none (x ∷ text) h =
    let other : (x == 58) ≡ false = ground arith in
    rw (other, split_colon-none text (ground arith)) refl

starts_response-token :
    (name rest : Text) → is_token name ≡ true → starts_response (name ++ 58 ∷ rest) ≡ false
unfolding starts_response is_token text_eq
starts_response-token [] rest h = ground arith
starts_response-token (a ∷ []) rest h = ground arith
starts_response-token (a ∷ b ∷ []) rest h = ground arith
starts_response-token (a ∷ b ∷ c ∷ []) rest h = ground arith
starts_response-token (a ∷ b ∷ c ∷ d ∷ []) rest h = ground arith
starts_response-token (a ∷ b ∷ c ∷ d ∷ e ∷ name) rest h = ground arith

skip-append :
    (xs ys : Text)
    → skip_spaces (xs ++ ys)
      ≡ (if is_nil (skip_spaces xs) then skip_spaces ys else skip_spaces xs ++ ys)
unfolding skip_spaces
skip-append [] ys = refl
skip-append (x ∷ xs) ys = elim (Bool-cases (is_space x)) [
  | inl space ↦ rw space (skip-append xs ys)
  | inr solid ↦ rw solid refl
]

-- Spaces around a text that is trimmed.
trim_copy-space : (x : ℕ) (text : Text) → is_space x ≡ true → trim_copy (x ∷ text) ≡ trim_copy text
unfolding trim_copy skip_spaces
trim_copy-space x text h = rw h refl

abbrev rear : Text → Text
rear text = reverse (skip_spaces (reverse text))

rear-line : (text : Text) → rear (text ++ crlf) ≡ rear text
unfolding skip_spaces is_space
rear-line text = ap (λ t. reverse (skip_spaces t)) (reverse-append text crlf)

trim_copy-line : (text : Text) → trim_copy (text ++ crlf) ≡ trim_copy text
unfolding trim_copy
trim_copy-line text = ap rear (skip-append text crlf) ∙ by_rest (skip_spaces text)
  where
    by_rest :
        (rest : Text) → rear (if is_nil rest then skip_spaces crlf else rest ++ crlf) ≡ rear rest
    by_rest [] = unfold skip_spaces in unfold is_space in refl
    by_rest (x ∷ rest) = rear-line (x ∷ rest)

-- The value, as the client trims it.
trim_copy-value : (value : Text) → Text.trim_copy (32 ∷ value ++ crlf) ≡ Text.trim_copy value
trim_copy-value value =
    sym (trim_copy-same (32 ∷ value ++ crlf))
    ∙ trim_copy-space 32 (value ++ crlf) (unfold is_space in refl)
    ∙ trim_copy-line value
    ∙ trim_copy-same value

header_line-colon :
    (name value : Text) → header_line name value ++ crlf ≡ name ++ 58 ∷ (32 ∷ value ++ crlf)
unfolding header_line
header_line-colon name value = append_assoc name (separator ++ value) crlf

-- The header that the client makes of a field.
abbrev pub seen : Text → Text → Header
seen name value = record { name = Text.trim_copy name; value = Text.trim_copy value }

abbrev header_from : Option (Text × Text) → List Header
header_from o = elim o [
  | none ↦ []
  | some (name, value) ↦ record { name = Text.trim_copy name; value = Text.trim_copy value } ∷ []
]

pub parse_header-header_line :
    (name value : Text)
    → is_token name ≡ true
    → parse_header (header_line name value ++ crlf) ≡ seen name value ∷ []
unfolding parse_header
parse_header-header_line name value h =
    ap parse_header (header_line-colon name value)
    ∙ ap header_from (split_colon-token name (32 ∷ value ++ crlf) h)
    ∙ ap (λ v. record { name = Text.trim_copy name; value = v } ∷ []) (trim_copy-value value)

pub starts_response-header_line :
    (name value : Text)
    → is_token name ≡ true
    → starts_response (header_line name value ++ crlf) ≡ false
starts_response-header_line name value h =
    ap starts_response (header_line-colon name value)
    ∙ starts_response-token name (32 ∷ value ++ crlf) h

has_colon-append :
    (xs ys : Text) → has_colon xs ≡ false → has_colon ys ≡ false → has_colon (xs ++ ys) ≡ false
unfolding has_colon
has_colon-append [] ys h k = k
has_colon-append (x ∷ xs) ys h k = ground (arith, has_colon-append xs ys (ground arith) k)

-- The status line starts a response, and holds no header where its text has no colon.
pub starts_response-version : (text : Text) → starts_response ((version ++ text) ++ crlf) ≡ true
unfolding starts_response text_eq
starts_response-version text = ground arith

pub parse_header-version :
    (text : Text) → has_colon text ≡ false → parse_header ((version ++ text) ++ crlf) ≡ []
unfolding parse_header
parse_header-version text h = ap header_from (
    split_colon-none ((version ++ text) ++ crlf) (
      has_colon-append (version ++ text) crlf
        (has_colon-append version text (unfold has_colon in refl) h) (unfold has_colon in refl)))
