-- ===== src/Grpc/Start.antt =====
-- cGenericGrpcWorker.h: `preRun`, `boundPort` and `lastError`.
use thread_component.Prelude.{
  ℕ, ◌≡◌, refl, Bool, true, false, [], ◌∷◌, ◌++◌, is_nil, arith, if◌then◌else◌,
}
use thread_component.HttpClient.Text.{Text}

-- `m_boundPort`, `m_lastError`, and whether `m_cq` and `m_server` hold an object.
pub record Startup : Type 0 where
  pub bound_port : ℕ
  pub last_error : Text
  pub has_queue : Bool
  pub has_server : Bool

-- How the calls of the library go: the server is made, with its port; `BuildAndStart` gives null; one
-- of them throws, before or after the queue was made.
pub data Build : Type 0 where
  builds : ℕ → Build
  gives_null : Build
  throws : Bool → Text → Build
  throws_other : Bool → Build

-- "BuildAndStart() returned a null server".
abbrev pub null_server : Text
null_server =
    66 ∷ 117 ∷ 105 ∷ 108 ∷ 100 ∷ 65 ∷ 110 ∷ 100 ∷ 83 ∷ 116 ∷ 97 ∷ 114 ∷ 116 ∷ 40 ∷ 41 ∷ 32 ∷ 114
    ∷ 101 ∷ 116 ∷ 117 ∷ 114 ∷ 110 ∷ 101 ∷ 100 ∷ 32 ∷ 97 ∷ 32 ∷ 110 ∷ 117 ∷ 108 ∷ 108 ∷ 32 ∷ 115
    ∷ 101 ∷ 114 ∷ 118 ∷ 101 ∷ 114 ∷ []

-- "gRPC server startup failed: ".
abbrev pub startup_failed : Text
startup_failed =
    103 ∷ 82 ∷ 80 ∷ 67 ∷ 32 ∷ 115 ∷ 101 ∷ 114 ∷ 118 ∷ 101 ∷ 114 ∷ 32 ∷ 115 ∷ 116 ∷ 97 ∷ 114 ∷ 116
    ∷ 117 ∷ 112 ∷ 32 ∷ 102 ∷ 97 ∷ 105 ∷ 108 ∷ 101 ∷ 100 ∷ 58 ∷ 32 ∷ []

-- "gRPC server startup failed: unknown exception".
abbrev pub unknown_exception : Text
unknown_exception =
    103 ∷ 82 ∷ 80 ∷ 67 ∷ 32 ∷ 115 ∷ 101 ∷ 114 ∷ 118 ∷ 101 ∷ 114 ∷ 32 ∷ 115 ∷ 116 ∷ 97 ∷ 114 ∷ 116
    ∷ 117 ∷ 112 ∷ 32 ∷ 102 ∷ 97 ∷ 105 ∷ 108 ∷ 101 ∷ 100 ∷ 58 ∷ 32 ∷ 117 ∷ 110 ∷ 107 ∷ 110 ∷ 111
    ∷ 119 ∷ 110 ∷ 32 ∷ 101 ∷ 120 ∷ 99 ∷ 101 ∷ 112 ∷ 116 ∷ 105 ∷ 111 ∷ 110 ∷ []

unfoldable pub pre_run : Build → Startup → Startup × Bool
pre_run (builds port) s =
    (record { bound_port = port; last_error = []; has_queue = true; has_server = true }, true)
pre_run gives_null s =
    (record s { last_error = null_server; has_queue = true; has_server = false }, false)
pre_run (throws queued what) s = (
  record s {
    last_error = startup_failed ++ what;
    has_queue = if queued then true else s.has_queue;
  },
  false,
)
pre_run (throws_other queued) s = (
  record s { last_error = unknown_exception; has_queue = if queued then true else s.has_queue },
  false,
)

abbrev port_of : Build → ℕ → ℕ
port_of (builds port) old = port
port_of _ old = old

-- `preRun` answers true exactly where it leaves `lastError` empty, and then there is a server; where it
-- answers false, `boundPort` is what it was before.
pub pre_run-bound_port :
    (b : Build) (s : Startup)
    → let (t, started) = pre_run b s in
      ((is_nil t.last_error ≡ started) × (started ≡ true → t.has_server ≡ true))
      × (t.bound_port ≡ port_of b s.bound_port)
unfolding pre_run
pre_run-bound_port (builds port) s = ((refl, λ _. refl), refl)
pre_run-bound_port gives_null s = ((refl, λ e. absurd (ground (arith, e))), refl)
pre_run-bound_port (throws queued what) s = ((refl, λ e. absurd (ground (arith, e))), refl)
pre_run-bound_port (throws_other queued) s = ((refl, λ e. absurd (ground (arith, e))), refl)
