-- ===== src/HttpServer/Setup.antt =====
-- cHTTPServer.cpp: the calls that prepare a server before it is started, in any order.
use thread_component.Prelude.{ℕ, Bool, false, Option, none, List, [], ◌∷◌}
use thread_component.HttpClient.Text.{Text}
use thread_component.HttpServer.Routes.{add_resource, set_default_resource}
use thread_component.HttpServer.Settings
use thread_component.HttpServer.Settings.{Setter, set_all}
use thread_component.HttpServer.Serving.{Impl, set_error_handler}

-- The calls with their arguments. `clearErrorHandler` gives no handler.
pub data Setup (H E : Type 0) : Type 0 where
  calls_setter : Setter → Setup H E
  adds_resource : Text → Text → Option H → Setup H E
  sets_default_resource : Text → Option H → Setup H E
  sets_error_handler : Option E → Setup H E

module _ {H E : Type 0} where
  -- The constructor of the class, of a port, an address and a number of threads.
  abbrev pub new_impl : Text → ℕ → Text → ℕ → Impl H E
  new_impl protocol port bind_address thread_pool_size = record {
    protocol = protocol;
    settings = Settings.new port bind_address thread_pool_size;
    start = record {
      start_resolved = false;
      start_succeeded = false;
      listening_port = 0;
      last_error = [];
    };
    resources = [];
    default_resources = [];
    error_handler = none;
    server = none;
  }

  -- A call, with what `isRunning` returns; its answer is left out.
  unfoldable pub set_up : Bool → Setup H E → Impl H E → Impl H E
  unfolding set_error_handler
  set_up running (calls_setter x) s = record s { settings = set_all ((running, x) ∷ []) s.settings }
  set_up running (adds_resource path method handler) s = record s {
    resources = (add_resource running path method handler s.resources).1;
  }
  set_up running (sets_default_resource method handler) s = record s {
    default_resources = (set_default_resource running method handler s.default_resources).1;
  }
  set_up running (sets_error_handler handler) s = set_error_handler running handler s

  unfoldable pub set_up_all : List (Bool × Setup H E) → Impl H E → Impl H E
  unfolding set_up
  set_up_all [] s = s
  set_up_all ((running, x) ∷ xs) s = set_up_all xs (set_up running x s)
