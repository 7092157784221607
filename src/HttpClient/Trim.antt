-- ===== src/HttpClient/Trim.antt =====
-- cHTTPClient.cpp: what `trimCopy` and `iequals` mean.
use thread_component.Prelude.{
  ℕ, zero, suc, ◌-◌, ◌≤◌, ◌<◌, ◌≡◌, ◌⊎◌, ◌↔◌, inl, inr, refl, ap, subst, true, false, [], ◌∷◌, map,
  arith, ◌==◌, ltb, length, take, drop, Bool-cases, ==_iff,
}
use thread_component.HttpClient.Text.{
  Text, is_space, to_lower, char_at, begin_loop, end_loop, trim_copy, iequals_loop, iequals,
}

-- `result` is the part of `text` from its first character that is no space to its last.
pub record Trimmed (text result : Text) : Type 0 where
  pub first : ℕ
  pub last : ℕ
  pub inside : (first ≤ last) × (last ≤ length text)
  pub part : result ≡ take (last - first) (drop first text)
  pub spaces :
      (i : ℕ) → (i < first) ⊎ (last ≤ i) → i < length text → is_space (char_at text i) ≡ true
  pub solid :
      first < last
      → (is_space (char_at text first) ≡ false) × (is_space (char_at text (last - 1)) ≡ false)

pub begin-le : (text : Text) → begin_loop text ≤ length text
unfolding begin_loop
begin-le [] = omega arith
begin-le (x ∷ text) = ground (arith, begin-le text)

begin-space : (text : Text) (i : ℕ) → i < begin_loop text → is_space (char_at text i) ≡ true
unfolding begin_loop char_at
begin-space [] i h = absurd (omega arith)
begin-space (x ∷ text) zero h = ground arith
begin-space (x ∷ text) (suc i) h = begin-space text i (ground arith)

begin-solid :
    (text : Text)
    → begin_loop text < length text
    → is_space (char_at text (begin_loop text)) ≡ false
unfolding begin_loop char_at
begin-solid [] h = absurd (omega arith)
begin-solid (x ∷ text) h = elim (Bool-cases (is_space x)) [
  | inl space ↦ rw (space, char_at) (begin-solid text (ground arith))
  | inr solid ↦ rw (solid, char_at) solid
]

pub end-le : (text : Text) (begin n : ℕ) → end_loop text begin n ≤ n
unfolding end_loop
end-le text begin zero = omega arith
end-le text begin (suc n) = ground (arith, end-le text begin n)

pub end-ge : (text : Text) (begin n : ℕ) → begin ≤ n → begin ≤ end_loop text begin n
unfolding end_loop
end-ge text begin zero h = omega arith
end-ge text begin (suc n) h = elim (Bool-cases (ltb begin (suc n))) [
  | inl more ↦ let rest = end-ge text begin n (ground arith) in ground arith
  | inr done ↦ rw done h
]

end-space :
    (text : Text) (begin n i : ℕ)
    → end_loop text begin n ≤ i
    → i < n
    → is_space (char_at text i) ≡ true
unfolding end_loop
end-space text begin zero i h k = absurd (omega arith)
end-space text begin (suc n) i h k = elim (Bool-cases (i == n)) [
  | inl here ↦ rw ((==_iff i n).0 here) (let at : i ≡ n = (==_iff i n).0 here in ground arith)
  | inr before ↦ end-space text begin n i (ground (arith, end-le text begin n)) (ground arith)
]

end-solid :
    (text : Text) (begin n : ℕ)
    → begin < end_loop text begin n
    → is_space (char_at text (end_loop text begin n - 1)) ≡ false
unfolding end_loop
end-solid text begin zero h = absurd (omega arith)
end-solid text begin (suc n) h = elim (Bool-cases (ltb begin (suc n))) [
  | inl more ↦ elim (Bool-cases (is_space (char_at text n))) [
    | inl space ↦ rw (more, space, end_loop) (end-solid text begin n (ground arith))
    | inr solid ↦
        rw (more, solid, end_loop)
          (subst (λ k. is_space (char_at text k) ≡ false) (omega arith) solid)
  ]
  | inr done ↦ absurd (ground arith)
]

-- `trimCopy` gives the part of the text from the first character that is no space to the last.
pub trim_copy-Trimmed : (text : Text) → Trimmed text (trim_copy text)
unfolding trim_copy
trim_copy-Trimmed text =
    let begin = begin_loop text in
    let end = end_loop text begin (length text) in
    record {
      first = begin;
      last = end;
      inside = (end-ge text begin (length text) (begin-le text), end-le text begin (length text));
      part = refl;
      spaces = λ i out within. elim out [
        | inl before ↦ begin-space text i before
        | inr after ↦ end-space text begin (length text) i after within
      ];
      solid = λ h. (
        begin-solid text (omega (arith, h, end-le text begin (length text))),
        end-solid text begin (length text) h,
      );
    }

loop_iff :
    (lhs rhs : Text)
    → length lhs ≡ length rhs
    → (iequals_loop lhs rhs ≡ true) ↔ (map to_lower lhs ≡ map to_lower rhs)
unfolding iequals_loop
loop_iff [] [] h = (λ _. refl, λ _. refl)
loop_iff (x ∷ lhs) [] h = absurd (omega arith)
loop_iff [] (y ∷ rhs) h = absurd (omega arith)
loop_iff (x ∷ lhs) (y ∷ rhs) h =
    let ih = loop_iff lhs rhs (omega arith) in
    elim (Bool-cases (to_lower x == to_lower y)) [
      | inl same ↦
          let e = (==_iff (to_lower x) (to_lower y)).0 same in
          rw same (λ k. let l = ih.0 k in cc, λ k. ih.1 cc)
      | inr other ↦
          rw other
            (λ k. absurd cc, λ k. absurd (let e : to_lower x ≡ to_lower y = cc in ground arith))
    ]

length-lower : (lhs : Text) → length (map to_lower lhs) ≡ length lhs
length-lower [] = refl
length-lower (x ∷ lhs) = ap suc (length-lower lhs)

-- `iequals` tells whether two texts have the same letters in lower case.
pub iequals_iff :
    (lhs rhs : Text) → (iequals lhs rhs ≡ true) ↔ (map to_lower lhs ≡ map to_lower rhs)
unfolding iequals
iequals_iff lhs rhs = elim (Bool-cases (length lhs == length rhs)) [
  | inl same ↦ rw same (loop_iff lhs rhs ((==_iff (length lhs) (length rhs)).0 same))
  | inr other ↦ rw other (
    λ k. absurd cc,
    λ k. absurd (
        let e : length (map to_lower lhs) ≡ length (map to_lower rhs) = ap length k in
        ground (arith, length-lower lhs, length-lower rhs)),
  )
]
