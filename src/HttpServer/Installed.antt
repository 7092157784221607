-- ===== src/HttpServer/Installed.antt =====
-- cHTTPServer.cpp: which handler answers a path and a method.
use thread_component.Prelude.{
  ◌≡◌, refl, ap, ◌∙◌, Bool, true, false, Option, none, some, List, [], ◌∷◌, ◌&&◌, ◌||◌, is_nil,
  arith, if◌then◌else◌,
}
use thread_component.HttpClient.Text.{Text, text_eq}
use thread_component.HttpServer.Routes.{Route, put_route, add_resource, Table, install}
use thread_component.HttpServer.Text.{normalize_method}
use thread_component.HttpServer.Lookup.{IsUnique, put-IsUnique, install-put}

-- A call of `addResource`; `running` tells whether the worker runs.
pub record AddCall (H : Type 0) : Type 0 where
  pub running : Bool
  pub path_regex : Text
  pub method : Text
  pub handler : Option H

module _ {H : Type 0} where
  -- A call that is refused, where `refused`, or else puts a route.
  abbrev pub put_unless : Bool → Text → Text → H → List (Route H) → Bool × List (Route H)
  put_unless refused path method h routes =
      if refused then (false, routes) else (true, put_route path method h routes)

  pub put-step :
      (refused : Bool) (path method : Text) (h : H) (routes : List (Route H)) (table : Table H)
      (p m : Text)
      → IsUnique routes
      → let routes' = (put_unless refused path method h routes).1 in
        IsUnique routes'
        × (install routes' table p m
            ≡ elim (if refused
                then none
                else if text_eq path p && text_eq method m
                then some h
                else none) [ none ↦ install routes table p m | some h ↦ some h ])
  put-step true path method h routes table p m u = (u, refl)
  put-step false path method h routes table p m u = (
    put-IsUnique path method h routes u,
    install-put p m path method h routes table u ∙ ground arith,
  )

  unfoldable pub add_all : List (AddCall H) → List (Route H) → List (Route H)
  add_all [] routes = routes
  add_all (c ∷ calls) routes =
      add_all calls (add_resource c.running c.path_regex c.method c.handler routes).1

  -- The handler that a call gives to a path and a method, if it is accepted and names them.
  unfoldable pub given : AddCall H → Text → Text → Option H
  given c p m =
      if is_nil c.path_regex || is_nil (normalize_method c.method) || c.running
      then none
      else if text_eq c.path_regex p && text_eq (normalize_method c.method) m
      then c.handler
      else none

  -- The last handler that the calls give, or the one before them.
  unfoldable pub last_given : List (AddCall H) → Option H → Text → Text → Option H
  last_given [] old p m = old
  last_given (c ∷ calls) old p m =
      last_given calls (elim (given c p m) [ none ↦ old | some h ↦ some h ]) p m

  pub add-step :
      (c : AddCall H) (routes : List (Route H)) (table : Table H) (p m : Text)
      → IsUnique routes
      → let routes' = (add_resource c.running c.path_regex c.method c.handler routes).1 in
        IsUnique routes'
        × (install routes' table p m
            ≡ elim (given c p m) [ none ↦ install routes table p m | some h ↦ some h ])
  unfolding add_resource given
  add-step c routes table p m u = go c.handler refl
    where
      go :
          (h : Option H)
          → c.handler ≡ h
          → let routes' = (add_resource c.running c.path_regex c.method c.handler routes).1 in
            IsUnique routes'
            × (install routes' table p m
                ≡ elim (given c p m) [ none ↦ install routes table p m | some h ↦ some h ])
      go none e = rw e (u, ground arith)
      go (some h) e =
          let refused = is_nil c.path_regex || is_nil (normalize_method c.method) || c.running in
          rw e (put-step refused c.path_regex (normalize_method c.method) h routes table p m u)

  add_all-install :
      (calls : List (AddCall H)) (routes : List (Route H)) (table : Table H) (p m : Text)
      → IsUnique routes
      → install (add_all calls routes) table p m ≡ last_given calls (install routes table p m) p m
  unfolding add_all last_given
  add_all-install [] routes table p m u = refl
  add_all-install (c ∷ calls) routes table p m u =
      let routes' = (add_resource c.running c.path_regex c.method c.handler routes).1 in
      let (u', one) = add-step c routes table p m u in
      add_all-install calls routes' table p m u' ∙ ap (λ o. last_given calls o p m) one

  -- After any calls of `addResource` on a new server, `preRun` gives to each path and method the
  -- handler of the last accepted call that named them, with the method trimmed and in upper case, and
  -- to all others none. A call with an empty path, an empty method or an empty handler, or on a
  -- running worker, is not accepted.
  pub install-last :
      (calls : List (AddCall H)) (p m : Text)
      → install (add_all calls []) (λ _ _. none) p m ≡ last_given calls none p m
  unfolding install
  install-last calls p m = add_all-install calls [] (λ _ _. none) p m tt
