-- ===== src/HttpServer/Settings.antt =====
-- cHTTPServer.cpp: the settings, and what the server of the library is configured with.
use thread_component.Prelude.{
  ℕ, ◌-◌, ◌^◌, ◌≤◌, ◌≡◌, refl, Bool, true, false, List, [], ◌∷◌, arith, if◌then◌else◌, ◌==◌,
}
use thread_component.Prelude.Int.{ℤ, pos, negsuc, is_negative}
use thread_component.HttpClient.Text.{Text}

-- The fields of `st_Impl` that the setters set; a `long` is an integer, a `size_t` a number.
pub record Settings : Type 0 where
  pub bind_address : Text
  pub configured_port : ℕ
  pub thread_pool_size : ℕ
  pub reuse_address : Bool
  pub fast_open : Bool
  pub request_timeout : ℤ
  pub content_timeout : ℤ
  pub max_request_size : ℕ

-- The greatest `size_t`, of 64 bits.
abbrev pub size_max : ℕ
size_max = 2 ^ 64 - 1

-- The constructor, and the initial values of the fields.
abbrev pub new : ℕ → Text → ℕ → Settings
new port bind_address thread_pool_size = record {
  bind_address = bind_address;
  configured_port = port;
  thread_pool_size = if thread_pool_size == 0 then 1 else thread_pool_size;
  reuse_address = true;
  fast_open = false;
  request_timeout = pos 5;
  content_timeout = pos 300;
  max_request_size = size_max;
}

-- `std::max(0L, …)`.
unfoldable pub max_zero : ℤ → ℤ
max_zero (pos n) = pos n
max_zero (negsuc n) = pos 0

-- The setters with their arguments.
pub data Setter : Type 0 where
  set_bind_address : Text → Setter
  set_port : ℕ → Setter
  set_thread_pool_size : ℕ → Setter
  set_reuse_address : Bool → Setter
  set_fast_open : Bool → Setter
  set_request_timeout_seconds : ℤ → Setter
  set_content_timeout_seconds : ℤ → Setter
  set_max_request_size : ℕ → Setter

-- A setter on a worker that does not run.
unfoldable pub set : Setter → Settings → Settings
unfolding max_zero
set (set_bind_address address) s = record s { bind_address = address }
set (set_port port) s = record s { configured_port = port }
set (set_thread_pool_size size) s = record s { thread_pool_size = if size == 0 then 1 else size }
set (set_reuse_address reuse) s = record s { reuse_address = reuse }
set (set_fast_open fast) s = record s { fast_open = fast }
set (set_request_timeout_seconds seconds) s = record s { request_timeout = max_zero seconds }
set (set_content_timeout_seconds seconds) s = record s { content_timeout = max_zero seconds }
set (set_max_request_size size) s = record s {
  max_request_size = if size == 0 then size_max else size;
}

-- Calls of setters, each with what `isRunning` returns.
unfoldable pub set_all : List (Bool × Setter) → Settings → Settings
unfolding set
set_all [] s = s
set_all ((running, x) ∷ xs) s = set_all xs (if running then s else set x s)

-- The fields of `server->config` that `preRun` sets.
pub record Config : Type 0 where
  pub port : ℕ
  pub address : Text
  pub pool : ℕ
  pub reuse : Bool
  pub fast : Bool
  pub timeout_request : ℤ
  pub timeout_content : ℤ
  pub max_request_streambuf_size : ℕ

unfoldable pub configure : Settings → Config
configure s = record {
  port = s.configured_port;
  address = s.bind_address;
  pool = s.thread_pool_size;
  reuse = s.reuse_address;
  fast = s.fast_open;
  timeout_request = s.request_timeout;
  timeout_content = s.content_timeout;
  max_request_streambuf_size = s.max_request_size;
}

-- A server has a thread, no timeout is negative, and a request may have a byte.
abbrev pub IsUsable : Config → Type 0
IsUsable c =
    ((1 ≤ c.pool) × (1 ≤ c.max_request_streambuf_size))
    × ((is_negative c.timeout_request ≡ false) × (is_negative c.timeout_content ≡ false))

max_zero-lem : (n : ℤ) → is_negative (max_zero n) ≡ false
unfolding max_zero
max_zero-lem (pos n) = refl
max_zero-lem (negsuc n) = refl

not_zero : (n d : ℕ) → 1 ≤ d → 1 ≤ (if n == 0 then d else n)
not_zero n d h = ground (arith, h)

size_max-positive : 1 ≤ size_max
size_max-positive = omega arith

pub set-IsUsable :
    (x : Setter) (s : Settings) → IsUsable (configure s) → IsUsable (configure (set x s))
unfolding configure set
set-IsUsable (set_bind_address a) s h = h
set-IsUsable (set_port p) s h = h
set-IsUsable (set_thread_pool_size n) s ((_, m), t) = ((ground arith, m), t)
set-IsUsable (set_reuse_address b) s h = h
set-IsUsable (set_fast_open b) s h = h
set-IsUsable (set_request_timeout_seconds n) s (h, (_, t)) = (h, (max_zero-lem n, t))
set-IsUsable (set_content_timeout_seconds n) s (h, (t, _)) = (h, (t, max_zero-lem n))
set-IsUsable (set_max_request_size n) s ((p, _), t) =
    ((p, not_zero n size_max size_max-positive), t)

pub set_all-IsUsable :
    (xs : List (Bool × Setter)) (s : Settings)
    → IsUsable (configure s)
    → IsUsable (configure (set_all xs s))
unfolding set_all
set_all-IsUsable [] s h = h
set_all-IsUsable ((true, x) ∷ xs) s h = set_all-IsUsable xs s h
set_all-IsUsable ((false, x) ∷ xs) s h = set_all-IsUsable xs (set x s) (set-IsUsable x s h)

-- Whatever the server is made with and whichever setters are called, with which values: what `preRun`
-- gives the server of the library has a thread at least, no negative timeout, and room for a request.
pub settings-IsUsable :
    (port : ℕ) (address : Text) (pool : ℕ) (xs : List (Bool × Setter))
    → IsUsable (configure (set_all xs (new port address pool)))
unfolding configure
settings-IsUsable port address pool xs =
    set_all-IsUsable xs (new port address pool)
      ((not_zero pool 1 (omega arith), size_max-positive), (refl, refl))
