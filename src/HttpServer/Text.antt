-- ===== src/HttpServer/Text.antt =====
-- cHTTPServer.cpp: `trimCopy` and `normalizeMethod`. The same `trimCopy` stands in cHTTPSServer.cpp;
-- that of cHTTPClient.cpp is written with indices.
use thread_component.Prelude.{
  ℕ, zero, suc, ◌+◌, ◌-◌, ◌≤◌, ◌<◌, ◌≡◌, refl, sym, ap, ◌∙◌, ◌⊎◌, true, false, [], ◌∷◌, ◌++◌, ◌&&◌,
  map, arith, if◌then◌else◌, leb, ltb, length, take, drop, length-drop, take_all, Bool-cases, inl,
  inr,
}
use mathlib.Core.List.{reverse, reverse-append, reverse-cons, reverse-reverse}
use thread_component.HttpClient.Text
use thread_component.HttpClient.Text.{Text, is_space, char_at, begin_loop, end_loop}
use thread_component.HttpClient.Trim.{begin-le}

-- What stands from the first character on that is no space (`find_if` from `begin()`).
unfoldable pub skip_spaces : Text → Text
skip_spaces [] = []
skip_spaces (x ∷ text) = let rest = skip_spaces text in if is_space x then rest else x ∷ text

-- The second `erase` searches from the back (`find_if` from `rbegin()`).
unfoldable pub trim_copy : Text → Text
unfolding skip_spaces
trim_copy text = reverse (skip_spaces (reverse (skip_spaces text)))

unfoldable pub to_upper : ℕ → ℕ
to_upper ch = if leb 97 ch && leb ch 122 then ch - 32 else ch

unfoldable pub normalize_method : Text → Text
unfolding trim_copy to_upper
normalize_method method = map to_upper (trim_copy method)

skip-drop : (text : Text) → skip_spaces text ≡ drop (begin_loop text) text
unfolding skip_spaces begin_loop
skip-drop [] = refl
skip-drop (x ∷ text) = elim (Bool-cases (is_space x)) [
  | inl space ↦ rw space (skip-drop text)
  | inr solid ↦ rw solid refl
]

char_at-drop : (b i : ℕ) (text : Text) → char_at (drop b text) i ≡ char_at text (b + i)
unfolding char_at
char_at-drop zero i text = let e : i ≡ 0 + i = omega arith in ap (char_at text) e
char_at-drop (suc b) i [] = refl
char_at-drop (suc b) i (x ∷ text) =
    let e : suc (b + i) ≡ suc b + i = omega arith in
    char_at-drop b i text ∙ ap (char_at (x ∷ text)) e

take-suc : (m : ℕ) (l : Text) → m < length l → take (suc m) l ≡ take m l ++ char_at l m ∷ []
unfolding char_at
take-suc m [] h = absurd (omega arith)
take-suc zero (x ∷ l) h = refl
take-suc (suc m) (x ∷ l) h = ap (◌∷◌ x) (take-suc m l (omega arith))

end-at : (text : Text) (b : ℕ) → end_loop text b b ≡ b
unfolding end_loop
end-at text zero = refl
end-at text (suc b) = let e : ltb (suc b) (suc b) ≡ false = ground arith in rw e refl

-- One more character at the back.
skip-snoc :
    (xs : Text) (x : ℕ)
    → reverse (skip_spaces (reverse (xs ++ x ∷ [])))
      ≡ (if is_space x then reverse (skip_spaces (reverse xs)) else xs ++ x ∷ [])
unfolding skip_spaces
skip-snoc xs x = rw (reverse-append xs (x ∷ [])) (go (Bool-cases (is_space x)))
  where
    go :
        (is_space x ≡ true) ⊎ (is_space x ≡ false)
        → reverse (skip_spaces (x ∷ reverse xs))
          ≡ (if is_space x then reverse (skip_spaces (reverse xs)) else xs ++ x ∷ [])
    go (inl space) = rw space refl
    go (inr solid) =
        rw solid (reverse-cons x (reverse xs) ∙ ap (λ l. l ++ x ∷ []) (reverse-reverse xs))

end-step :
    (text : Text) (b m : ℕ)
    → end_loop text b (b + suc m)
      ≡ (if is_space (char_at (drop b text) m) then end_loop text b (b + m) else suc (b + m))
unfolding end_loop
end-step text b m =
    let e : b + suc m ≡ suc (b + m) = omega arith in
    let more : ltb b (suc (b + m)) ≡ true = ground arith in
    ap (end_loop text b) e ∙ rw (more, char_at-drop b m text) refl

skip-back :
    (text : Text) (b m : ℕ)
    → m ≤ length (drop b text)
    → reverse (skip_spaces (reverse (take m (drop b text))))
      ≡ take (end_loop text b (b + m) - b) (drop b text)
skip-back text b zero h =
    let k : b + 0 ≡ b = omega arith in
    let e : 0 ≡ end_loop text b (b + 0) - b =
      omega (arith, ap (end_loop text b) k, end-at text b) in
    unfold skip_spaces in ap (λ n. take n (drop b text)) e
skip-back text b (suc m) h =
    ap (λ t. reverse (skip_spaces (reverse t))) (take-suc m (drop b text) h)
    ∙ skip-snoc (take m (drop b text)) (char_at (drop b text) m)
    ∙ last-case (skip-back text b m (omega arith)) (Bool-cases (is_space (char_at (drop b text) m)))
  where
    last-case :
        reverse (skip_spaces (reverse (take m (drop b text))))
          ≡ take (end_loop text b (b + m) - b) (drop b text)
        → (is_space (char_at (drop b text) m) ≡ true) ⊎ (is_space (char_at (drop b text) m) ≡ false)
        → (if is_space (char_at (drop b text) m)
            then reverse (skip_spaces (reverse (take m (drop b text))))
            else take m (drop b text) ++ char_at (drop b text) m ∷ [])
          ≡ take (end_loop text b (b + suc m) - b) (drop b text)
    last-case ih (inl space) = rw (end-step text b m, space) ih
    last-case ih (inr solid) =
        let e : suc m ≡ suc (b + m) - b = omega arith in
        rw (end-step text b m, solid)
          (sym (take-suc m (drop b text) h) ∙ ap (λ n. take n (drop b text)) e)

-- The `trimCopy` of the servers, by two `erase` calls, and that of the client, by indices, agree.
pub trim_copy-same : (text : Text) → trim_copy text ≡ Text.trim_copy text
unfolding trim_copy Text.trim_copy
trim_copy-same text =
    let b = begin_loop text in
    let l = drop b text in
    let size : b + length l ≡ length text = omega (arith, length-drop b text, begin-le text) in
    ap (λ t. reverse (skip_spaces (reverse t)))
      (skip-drop text ∙ sym (take_all (length l) l (omega arith)))
    ∙ skip-back text b (length l) (omega arith)
    ∙ ap (λ n. take (end_loop text b n - b) l) size
