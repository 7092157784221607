-- ===== src/HttpServer/Samples.antt =====
-- cHTTPServer.cpp: what the tests share.
use thread_component.Prelude.{◌==◌, ℕ, Bool, if◌then◌else◌, refl, true, false, [], ◌∷◌}
use thread_component.HttpClient.Text.{Text}
use thread_component.HttpServer.Answer.{Answer}
use thread_component.HttpServer.Response.{Printing}
use thread_component.HttpServer.Reader.{IsLine}
use thread_component.HttpServer.Framing.{PrintsLines}

-- " get ", "GET" and "/".
abbrev pub padded : Text
padded = 32 ∷ 103 ∷ 101 ∷ 116 ∷ 32 ∷ []

abbrev pub get : Text
get = 71 ∷ 69 ∷ 84 ∷ []

abbrev pub root : Text
root = 47 ∷ []

-- A library that knows the code 200, and prints each number as "7".
abbrev pub printing : Printing
printing = record {
  status_text = λ n. if n == 200 then 50 ∷ 48 ∷ 48 ∷ 32 ∷ 79 ∷ 75 ∷ [] else [];
  to_string = λ n. 55 ∷ [];
}

status-IsPrinted : (n : ℕ) → IsLine (if n == 200 then 50 ∷ 48 ∷ 48 ∷ 32 ∷ 79 ∷ 75 ∷ [] else [])
status-IsPrinted n = by_code (n == 200)
  where
    by_code : (b : Bool) → IsLine (if b then 50 ∷ 48 ∷ 48 ∷ 32 ∷ 79 ∷ 75 ∷ [] else [])
    by_code true = (refl, (refl, (refl, (refl, (refl, (refl, tt))))))
    by_code false = tt

pub printing-PrintsLines : PrintsLines printing
printing-PrintsLines = (status-IsPrinted, λ n. (refl, tt))

abbrev pub small : Answer
small = record {
  status_code = 200;
  body = 13 ∷ 10 ∷ 13 ∷ 10 ∷ [];
  headers = record { name = root; value = get } ∷ record { name = []; value = get } ∷ [];
}
