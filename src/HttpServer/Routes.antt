-- ===== src/HttpServer/Routes.antt =====
-- cHTTPServer.cpp: `addResource`, and how `preRun` gives the routes to the server of the library.
-- `H` is the type of handlers. `setDefaultResource` is the same with an empty path.
use thread_component.Prelude.{
  Bool, true, false, Option, none, some, List, [], ◌∷◌, ◌&&◌, ◌||◌, is_nil, if◌then◌else◌,
}
use thread_component.HttpClient.Text.{Text, text_eq}
use thread_component.HttpServer.Text.{normalize_method}

-- `st_Route`.
pub record Route (H : Type 0) : Type 0 where
  pub path_regex : Text
  pub method : Text
  pub handler : H

-- `server->resource[pathRegex][method]`.
abbrev pub Table : Type 0 → Type 0
Table H = Text → Text → Option H

module _ {H : Type 0} where
  -- Whether a route stands under this path and this method.
  unfoldable pub matches : Text → Text → Route H → Bool
  matches path method r = text_eq r.path_regex path && text_eq r.method method

  -- The handler of the first route that matches is replaced; a new route goes to the back.
  unfoldable pub put_route : Text → Text → H → List (Route H) → List (Route H)
  unfolding matches
  put_route path method h [] = record { path_regex = path; method = method; handler = h } ∷ []
  put_route path method h (r ∷ routes) =
      let rest = put_route path method h routes in
      if matches path method r then record r { handler = h } ∷ routes else r ∷ rest

  -- The handler is `none` where the `std::function` is empty.
  unfoldable pub add_resource :
      Bool → Text → Text → Option H → List (Route H) → Bool × List (Route H)
  unfolding put_route
  add_resource running path method none routes = (false, routes)
  add_resource running path method (some h) routes =
      if is_nil path || is_nil (normalize_method method) || running
      then (false, routes)
      else (true, put_route path (normalize_method method) h routes)

  unfoldable pub set_default_resource :
      Bool → Text → Option H → List (Route H) → Bool × List (Route H)
  unfolding put_route
  set_default_resource running method none routes = (false, routes)
  set_default_resource running method (some h) routes =
      if is_nil (normalize_method method) || running
      then (false, routes)
      else (true, put_route [] (normalize_method method) h routes)

  unfoldable pub assign : Route H → Table H → Table H
  unfolding matches
  assign r table path method = if matches path method r then some r.handler else table path method

  -- The loop of `preRun` over the routes.
  unfoldable pub install : List (Route H) → Table H → Table H
  unfolding assign
  install [] table = table
  install (r ∷ routes) table = install routes (assign r table)
