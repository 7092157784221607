-- ===== src/HttpServer/Lookup.antt =====
-- cHTTPServer.cpp: what stands in the library's table after a route is put.
use thread_component.Prelude.{
  ◌≡◌, refl, sym, ap, ◌∙◌, inl, inr, Bool, true, false, some, List, [], ◌∷◌, ◌&&◌, ◌||◌, arith,
  if◌then◌else◌, ◌==◌, Bool-cases, ==_iff,
}
use thread_component.HttpClient.Text.{Text, text_eq}
use thread_component.HttpServer.Routes.{Route, matches, put_route, Table, assign, install}

text_eq_refl : (x : Text) → text_eq x x ≡ true
unfolding text_eq
text_eq_refl [] = refl
text_eq_refl (a ∷ x) = ground (arith, text_eq_refl x)

text_eq_eq : (x y : Text) → text_eq x y ≡ true → x ≡ y
unfolding text_eq
text_eq_eq [] [] h = refl
text_eq_eq (a ∷ x) [] h = absurd cc
text_eq_eq [] (b ∷ y) h = absurd cc
text_eq_eq (a ∷ x) (b ∷ y) h =
    let same : (a == b) ≡ true = ground arith in
    let rest = text_eq_eq x y (ground arith) in let e = (==_iff a b).0 same in cc

text_eq_sym : (x y : Text) → text_eq x y ≡ text_eq y x
unfolding text_eq
text_eq_sym [] [] = refl
text_eq_sym (a ∷ x) [] = refl
text_eq_sym [] (b ∷ y) = refl
text_eq_sym (a ∷ x) (b ∷ y) = ground (arith, text_eq_sym x y)

module _ {H : Type 0} where
  matches-eq :
      (path method : Text) (r : Route H)
      → matches path method r ≡ true
      → (r.path_regex ≡ path) × (r.method ≡ method)
  unfolding matches
  matches-eq path method r h =
      (text_eq_eq r.path_regex path (ground arith), text_eq_eq r.method method (ground arith))

  -- Whether some route matches.
  unfoldable pub holds : Text → Text → List (Route H) → Bool
  holds path method [] = false
  holds path method (r ∷ routes) =
      let rest = holds path method routes in if matches path method r then true else rest

  -- No two routes have one path and method.
  abbrev pub IsUnique : List (Route H) → Type 0
  IsUnique [] = Unit
  IsUnique (r ∷ routes) = (holds r.path_regex r.method routes ≡ false) × IsUnique routes

  holds-put :
      (p m path method : Text) (h : H) (routes : List (Route H))
      → holds p m (put_route path method h routes)
        ≡ (holds p m routes || (text_eq path p && text_eq method m))
  unfolding holds put_route matches
  holds-put p m path method h [] = ground arith
  holds-put p m path method h (r ∷ routes) = elim (Bool-cases (matches path method r)) [
    | inl here ↦ let (e, f) = matches-eq path method r here in rw (here, ← e, ← f) (ground arith)
    | inr on ↦ rw on (ground (arith, holds-put p m path method h routes))
  ]

  pub put-IsUnique :
      (path method : Text) (h : H) (routes : List (Route H))
      → IsUnique routes
      → IsUnique (put_route path method h routes)
  unfolding put_route holds matches
  put-IsUnique path method h [] u = (refl, tt)
  put-IsUnique path method h (r ∷ routes) (n, u) = elim (Bool-cases (matches path method r)) [
    | inl here ↦ rw here (n, u)
    | inr on ↦ rw on (
      holds-put r.path_regex r.method path method h routes
          ∙ ground (arith, text_eq_sym path r.path_regex, text_eq_sym method r.method),
      put-IsUnique path method h routes u,
    )
  ]

  install-same :
      (routes : List (Route H)) (p m : Text) (s t : Table H)
      → s p m ≡ t p m
      → install routes s p m ≡ install routes t p m
  unfolding install assign
  install-same [] p m s t e = e
  install-same (r ∷ routes) p m s t e =
      install-same routes p m (assign r s) (assign r t) (rw e refl)

  install-absent :
      (routes : List (Route H)) (p m : Text) (t : Table H)
      → holds p m routes ≡ false
      → install routes t p m ≡ t p m
  unfolding install assign holds
  install-absent [] p m t h = refl
  install-absent (r ∷ routes) p m t h =
      let other : matches p m r ≡ false = ground arith in
      install-absent routes p m (assign r t) (ground arith) ∙ rw other refl

  -- The case of a route that is replaced.
  install-replaced :
      (p m path method : Text) (h : H) (r : Route H) (routes : List (Route H)) (t : Table H)
      → (r.path_regex ≡ path) × (r.method ≡ method)
      → holds r.path_regex r.method routes ≡ false
      → install routes (assign (record r { handler = h }) t) p m
        ≡ (if text_eq path p && text_eq method m then some h else install routes (assign r t) p m)
  unfolding assign matches
  install-replaced p m path method h r routes t (e, f) n =
      elim (Bool-cases (text_eq path p && text_eq method m)) [
        | inl asked ↦
            let absent : holds p m routes ≡ false =
              ap (λ x. holds x m routes) (sym (e ∙ text_eq_eq path p (ground arith)))
              ∙ ap (λ y. holds r.path_regex y routes) (sym (f ∙ text_eq_eq method m (ground arith)))
              ∙ n in
            rw asked (
              install-absent routes p m (assign (record r { handler = h }) t) absent
              ∙ rw (key ∙ asked) refl)
        | inr other ↦ rw other (
            install-same routes p m (assign (record r { handler = h }) t) (assign r t)
              (rw (key ∙ other) refl))
      ]
    where
      key : matches p m r ≡ (text_eq path p && text_eq method m)
      key =
          ap (λ x. text_eq x p && text_eq r.method m) e ∙ ap (λ y. text_eq path p && text_eq y m) f

  pub install-put :
      (p m path method : Text) (h : H) (routes : List (Route H)) (t : Table H)
      → IsUnique routes
      → install (put_route path method h routes) t p m
        ≡ (if text_eq path p && text_eq method m then some h else install routes t p m)
  unfolding install put_route assign
  install-put p m path method h [] t u = unfold matches in refl
  install-put p m path method h (r ∷ routes) t (n, u) = elim (Bool-cases (matches path method r)) [
    | inr on ↦ rw on (install-put p m path method h routes (assign r t) u)
    | inl here ↦
        rw here (install-replaced p m path method h r routes t (matches-eq path method r here) n)
  ]
