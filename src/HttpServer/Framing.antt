-- ===== src/HttpServer/Framing.antt =====
-- cHTTPServer.cpp: the response that is written is the one that is read.
use thread_component.Prelude.{
  ℕ, suc, ◌≡◌, refl, sym, ap, ◌∙◌, Bool, true, false, some, List, [], ◌∷◌, ◌++◌, is_nil, length,
  arith, if◌then◌else◌, append_assoc,
}
use thread_component.HttpClient.Text.{Text}
use thread_component.HttpServer.Answer.{Field, Answer}
use thread_component.HttpServer.Response.{
  version, separator, content_length, crlf, has_header, Printing, make_status_line, header_line,
  write_headers, write_length, write_response,
}
use thread_component.HttpServer.Reader.{
  cons_head, read_head, IsLine, read_head-line, read_head-end, IsLine-append, lines_of, AreLines,
}

abbrev pub write_lines : List Text → Text
write_lines [] = []
write_lines (line ∷ lines) = line ++ (crlf ++ write_lines lines)

-- Lines that are not empty.
abbrev AreProper : List Text → Type 0
AreProper [] = Unit
AreProper ([] ∷ lines) = ⊥
AreProper ((c ∷ line) ∷ lines) = IsLine (c ∷ line) × AreProper lines

read_head-write_lines :
    (lines : List Text) (body : Text)
    → AreProper lines
    → read_head (suc (length lines)) (write_lines lines ++ (crlf ++ body)) ≡ some (lines, body)
read_head-write_lines [] body h = read_head-end 0 body
read_head-write_lines ([] ∷ lines) body h = absurd h
read_head-write_lines ((c ∷ line) ∷ lines) body (h, k) =
    let rest = write_lines lines ++ (crlf ++ body) in
    ap (read_head (suc (suc (length lines))))
      (append_assoc (c ∷ line) (crlf ++ write_lines lines) (crlf ++ body))
    ∙ read_head-line (suc (length lines)) c line rest h
    ∙ ap (cons_head (c ∷ line)) (read_head-write_lines lines body k)

write_headers-lines :
    (headers : List Field) → write_headers headers ≡ write_lines (lines_of headers)
unfolding write_headers
write_headers-lines [] = refl
write_headers-lines (h ∷ headers) = by_name (is_nil h.name) (write_headers-lines headers)
  where
    by_name :
        (b : Bool)
        → write_headers headers ≡ write_lines (lines_of headers)
        → (if b
            then write_headers headers
            else header_line h.name h.value ++ (crlf ++ write_headers headers))
          ≡ write_lines
              (if b then lines_of headers else header_line h.name h.value ∷ lines_of headers)
    by_name true e = e
    by_name false e = ap (λ xs. header_line h.name h.value ++ (crlf ++ xs)) e

-- The lines of the head of a response.
abbrev pub length_lines : Printing → Answer → List Text
length_lines p a =
    if has_header a.headers content_length
    then []
    else header_line content_length (p.to_string (length a.body)) ∷ []

abbrev pub head_lines : Printing → Answer → List Text
head_lines p a =
    (version ++ make_status_line p a.status_code) ∷ (lines_of a.headers ++ length_lines p a)

write_lines-append : (xs ys : List Text) → write_lines (xs ++ ys) ≡ write_lines xs ++ write_lines ys
write_lines-append [] ys = refl
write_lines-append (x ∷ xs) ys =
    ap (λ zs. x ++ (crlf ++ zs)) (write_lines-append xs ys)
    ∙ sym (append_assoc x (crlf ++ write_lines xs) (write_lines ys))

write_length-lines : (p : Printing) (a : Answer) → write_length p a ≡ write_lines (length_lines p a)
unfolding write_length
write_length-lines p a = by_header (has_header a.headers content_length)
  where
    by_header :
        (b : Bool)
        → let line = header_line content_length (p.to_string (length a.body)) in
          (if b then [] else line ++ crlf) ≡ write_lines (if b then [] else line ∷ [])
    by_header true = refl
    by_header false = refl

write_response-lines :
    (p : Printing) (a : Answer)
    → write_response p a ≡ write_lines (head_lines p a) ++ (crlf ++ a.body)
unfolding write_response
write_response-lines p a =
    let first = version ++ make_status_line p a.status_code in
    let hs = lines_of a.headers in
    let ls = length_lines p a in
    let end = crlf ++ a.body in
    ap (λ xs. first ++ (crlf ++ (xs ++ (write_length p a ++ end)))) (write_headers-lines a.headers)
    ∙ ap (λ xs. first ++ (crlf ++ (write_lines hs ++ (xs ++ end)))) (write_length-lines p a)
    ∙ ap (λ xs. first ++ (crlf ++ xs)) (sym (append_assoc (write_lines hs) (write_lines ls) end))
    ∙ ap (λ xs. first ++ (crlf ++ (xs ++ end))) (sym (write_lines-append hs ls))
    ∙ sym (append_assoc first (crlf ++ write_lines (hs ++ ls)) end)

-- The texts that the library prints stay on one line.
abbrev pub PrintsLines : Printing → Type 0
PrintsLines p = ((n : ℕ) → IsLine (p.status_text n)) × ((n : ℕ) → IsLine (p.to_string n))

status-IsLine : (p : Printing) (code : ℕ) → PrintsLines p → IsLine (make_status_line p code)
unfolding make_status_line
status-IsLine p code (h, k) = by_text (is_nil (p.status_text code))
  where
    by_text : (b : Bool) → IsLine (if b then p.to_string code else p.status_text code)
    by_text true = k code
    by_text false = h code

header-IsProper :
    (name value : Text) (rest : List Text)
    → IsLine name
    → IsLine value
    → is_nil name ≡ false
    → AreProper rest
    → AreProper (header_line name value ∷ rest)
unfolding header_line
header-IsProper [] value rest h k e r = absurd (ground (arith, e))
header-IsProper (c ∷ name) value rest (e, h) k _ r = (
  (
    e,
    IsLine-append name (separator ++ value) h (IsLine-append separator value (refl, (refl, tt)) k),
  ),
  r,
)

headers-AreProper :
    (headers : List Field) (rest : List Text)
    → AreLines headers
    → AreProper rest
    → AreProper (lines_of headers ++ rest)
headers-AreProper [] rest h r = r
headers-AreProper (f ∷ headers) rest ((n, v), h) r =
    by_name (is_nil f.name) refl (headers-AreProper headers rest h r)
  where
    by_name :
        (b : Bool)
        → is_nil f.name ≡ b
        → AreProper (lines_of headers ++ rest)
        → AreProper (
            (if b then lines_of headers else header_line f.name f.value ∷ lines_of headers) ++ rest)
    by_name true e k = k
    by_name false e k = header-IsProper f.name f.value (lines_of headers ++ rest) n v e k

length-AreProper : (p : Printing) (a : Answer) → PrintsLines p → AreProper (length_lines p a)
length-AreProper p a (_, k) = by_header (has_header a.headers content_length)
  where
    content_length-IsLine : IsLine content_length
    content_length-IsLine = (
      refl,
      (
        refl,
        (
          refl,
          (
            refl,
            (refl, (refl, (refl, (refl, (refl, (refl, (refl, (refl, (refl, (refl, tt)))))))))),
          ),
        ),
      ),
    )

    by_header :
        (b : Bool)
        → AreProper
            (if b then [] else header_line content_length (p.to_string (length a.body)) ∷ [])
    by_header true = tt
    by_header false =
        header-IsProper content_length (p.to_string (length a.body)) [] content_length-IsLine
          (k (length a.body)) refl tt

head-AreProper :
    (p : Printing) (a : Answer) → PrintsLines p → AreLines a.headers → AreProper (head_lines p a)
head-AreProper p a h k =
    let line = make_status_line p a.status_code in
    let proper : IsLine (version ++ line) =
      IsLine-append version line
        (refl, (refl, (refl, (refl, (refl, (refl, (refl, (refl, (refl, tt)))))))))
        (status-IsLine p a.status_code h) in
    (proper, headers-AreProper a.headers (length_lines p a) k (length-AreProper p a h))

-- What `writeResponse` writes, read back: where no header has a carriage return in its name or value,
-- a reader that takes lines up to an empty one, and has one unit of fuel for each line and one more,
-- finds the status line, a line for each header that has a name, in order, a line with the length of
-- the body where no header is named Content-Length, and then exactly the body.
pub read_head-write_response :
    (p : Printing) (a : Answer)
    → PrintsLines p
    → AreLines a.headers
    → read_head (suc (length (head_lines p a))) (write_response p a) ≡ some (head_lines p a, a.body)
read_head-write_response p a h k =
    ap (read_head (suc (length (head_lines p a)))) (write_response-lines p a)
    ∙ read_head-write_lines (head_lines p a) a.body (head-AreProper p a h k)
