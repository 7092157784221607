-- ===== src/HttpServer/Configured.antt =====
-- cHTTPServer.cpp: what `preRun` makes of the calls that prepared the server.
use thread_component.Prelude.{
  ℕ, ◌≡◌, refl, ap, ◌∙◌, Bool, true, false, Option, none, some, List, [], ◌∷◌, ◌||◌, is_nil,
  if◌then◌else◌, arith,
}
use thread_component.HttpClient.Text.{Text, text_eq}
use thread_component.HttpServer.Text.{normalize_method}
use thread_component.HttpServer.Routes.{Route, set_default_resource, install}
use thread_component.HttpServer.Settings.{
  IsUsable, configure, set_all, set_all-IsUsable, settings-IsUsable,
}
use thread_component.HttpServer.Serving.{Impl, nothing, make_library, set_error_handler}
use thread_component.HttpServer.Lookup.{IsUnique}
use thread_component.HttpServer.Installed.{AddCall, given, add-step, put-step}
use thread_component.HttpServer.Setup.{
  Setup, calls_setter, adds_resource, sets_default_resource, sets_error_handler, new_impl, set_up,
  set_up_all,
}

module _ {H : Type 0} where
  abbrev pub or_else : Option H → Option H → Option H
  or_else given old = elim given [ none ↦ old | some h ↦ some h ]

  -- The default handler that a call gives to a method.
  unfoldable pub given_default : Bool → Text → Option H → Text → Option H
  given_default running method handler m =
      if is_nil (normalize_method method) || running
      then none
      else if text_eq (normalize_method method) m
      then handler
      else none

  default-step :
      (running : Bool) (method : Text) (handler : Option H) (routes : List (Route H)) (m : Text)
      → IsUnique routes
      → let routes' = (set_default_resource running method handler routes).1 in
        IsUnique routes'
        × (install routes' nothing [] m
            ≡ or_else (given_default running method handler m) (install routes nothing [] m))
  unfolding set_default_resource given_default text_eq
  default-step running method none routes m u = (u, ground arith)
  default-step running method (some h) routes m u =
      let refused = is_nil (normalize_method method) || running in
      let (u', e) = put-step refused [] (normalize_method method) h routes nothing [] m u in (u', e)

module _ {H E : Type 0} where
  -- The handler that a call gives to a path and a method.
  unfoldable pub resource_by : Bool → Setup H E → Text → Text → Option H
  unfolding given
  resource_by running (adds_resource path method handler) p m =
      given (record { running = running; path_regex = path; method = method; handler = handler }) p
        m
  resource_by running _ p m = none

  unfoldable pub default_by : Bool → Setup H E → Text → Option H
  unfolding given_default
  default_by running (sets_default_resource method handler) m =
      given_default running method handler m
  default_by running _ m = none

  -- The error handler after a call.
  unfoldable pub handler_by : Bool → Setup H E → Option E → Option E
  handler_by running (sets_error_handler handler) old = if running then old else handler
  handler_by running _ old = old

  -- What the last call gave that gave something, or else what there was before.
  unfoldable pub last_resource : List (Bool × Setup H E) → Option H → Text → Text → Option H
  last_resource [] old p m = old
  last_resource ((running, x) ∷ xs) old p m =
      last_resource xs (or_else (resource_by running x p m) old) p m

  unfoldable pub last_default : List (Bool × Setup H E) → Option H → Text → Option H
  last_default [] old m = old
  last_default ((running, x) ∷ xs) old m = last_default xs (or_else (default_by running x m) old) m

  unfoldable pub last_handler : List (Bool × Setup H E) → Option E → Option E
  last_handler [] old = old
  last_handler ((running, x) ∷ xs) old = last_handler xs (handler_by running x old)

  -- That a server has one route at most for each path and method.
  abbrev IsSane : Impl H E → Type 0
  IsSane s = IsUnique s.resources × IsUnique s.default_resources

  set_up-step :
      (running : Bool) (x : Setup H E) (s : Impl H E) (p m : Text)
      → IsSane s
      → let t = set_up running x s in
        IsSane t
        × (install t.resources nothing p m
            ≡ or_else (resource_by running x p m) (install s.resources nothing p m))
        × (install t.default_resources nothing [] m
            ≡ or_else (default_by running x m) (install s.default_resources nothing [] m))
        × (t.error_handler ≡ handler_by running x s.error_handler)
  unfolding set_up resource_by default_by handler_by set_error_handler
  set_up-step true (calls_setter x) s p m h = (h, refl, refl, refl)
  set_up-step false (calls_setter x) s p m h = (h, refl, refl, refl)
  set_up-step running (adds_resource path method handler) s p m (u, v) =
      let c : AddCall H = record {
        running = running;
        path_regex = path;
        method = method;
        handler = handler;
      } in
      let (u', e) = add-step c s.resources nothing p m u in ((u', v), e, refl, refl)
  set_up-step running (sets_default_resource method handler) s p m (u, v) =
      let (v', e) = default-step running method handler s.default_resources m v in
      ((u, v'), refl, e, refl)
  set_up-step true (sets_error_handler handler) s p m h = (h, refl, refl, refl)
  set_up-step false (sets_error_handler handler) s p m h = (h, refl, refl, refl)

  set_up_all-install :
      (xs : List (Bool × Setup H E)) (s : Impl H E) (p m : Text)
      → IsSane s
      → let t = set_up_all xs s in
        (install t.resources nothing p m ≡ last_resource xs (install s.resources nothing p m) p m)
        × (install t.default_resources nothing [] m
            ≡ last_default xs (install s.default_resources nothing [] m) m)
        × (t.error_handler ≡ last_handler xs s.error_handler)
  unfolding set_up_all last_resource last_default last_handler
  set_up_all-install [] s p m h = (refl, refl, refl)
  set_up_all-install ((running, x) ∷ xs) s p m h =
      let (k, a, b, c) = set_up-step running x s p m h in
      let (a', b', c') = set_up_all-install xs (set_up running x s) p m k in
      (
        a' ∙ ap (λ o. last_resource xs o p m) a,
        b' ∙ ap (λ o. last_default xs o m) b,
        c' ∙ ap (last_handler xs) c,
      )

  set_up-IsUsable :
      (running : Bool) (x : Setup H E) (s : Impl H E)
      → IsUsable (configure s.settings)
      → IsUsable (configure (set_up running x s).settings)
  unfolding set_up set_error_handler
  set_up-IsUsable running (calls_setter x) s h = set_all-IsUsable ((running, x) ∷ []) s.settings h
  set_up-IsUsable running (adds_resource path method handler) s h = h
  set_up-IsUsable running (sets_default_resource method handler) s h = h
  set_up-IsUsable true (sets_error_handler handler) s h = h
  set_up-IsUsable false (sets_error_handler handler) s h = h

  set_up_all-IsUsable :
      (xs : List (Bool × Setup H E)) (s : Impl H E)
      → IsUsable (configure s.settings)
      → IsUsable (configure (set_up_all xs s).settings)
  unfolding set_up_all
  set_up_all-IsUsable [] s h = h
  set_up_all-IsUsable ((running, x) ∷ xs) s h =
      set_up_all-IsUsable xs (set_up running x s) (set_up-IsUsable running x s h)

  -- Whatever a server is made with, and whichever calls then prepare it, in whichever order: the server of
  -- the library that `preRun` makes has a usable configuration; for each path and method the handler
  -- of the last accepted call of `addResource` that named them; for each method that of the last accepted
  -- call of `setDefaultResource`; and the last error handler that was set. It has none where there
  -- was no such call, and calls on a running worker have no effect.
  pub set_up_all-make_library :
      (xs : List (Bool × Setup H E)) (protocol : Text) (port : ℕ) (address : Text) (pool : ℕ)
      (p m : Text)
      → let l = make_library (set_up_all xs (new_impl protocol port address pool)) in
        IsUsable l.config
        × (l.resource p m ≡ last_resource xs none p m)
        × (l.default_resource [] m ≡ last_default xs none m)
        × (l.on_error ≡ last_handler xs none)
  unfolding install set_all
  set_up_all-make_library xs protocol port address pool p m =
      let s : Impl H E = new_impl protocol port address pool in
      let (a, b, c) = set_up_all-install xs s p m (tt, tt) in
      (set_up_all-IsUsable xs s (settings-IsUsable port address pool []), a, b, c)
