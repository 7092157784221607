-- ===== src/HttpServerV2/Secure.antt =====
-- cHTTPSServer_V2.cpp: the server with certificates, whose other code is that of `Server`.
use thread_component.Prelude.{ℕ, ◌≡◌, refl, Bool, Option, some, List, [], ◌∷◌}
use thread_component.Prelude.Int.{ℤ}
use thread_component.HttpClient.Text.{Text}
use thread_component.HttpServer.Start.{Report}
use thread_component.HttpServerV2.Server.{
  Handler, user, Server, new, Making, makes, Course, IoEnd, call_handler, pre_run, run,
  stop_triggered, set_io_thread_count, reset_start, report, set_last_error, wait_listening,
  process_work,
}
use thread_component.HttpServer.Messages.{https}
use thread_component.HttpServerV2.Restoring.{cycles, AllFinish, cycles-call_handler}

-- The fields: those of `Server`, and the files that `m_server` was made from.
pub record SecureServer : Type 0 where
  pub base : Server
  pub certificate_file : Text
  pub private_key_file : Text
  pub verify_file : Text

abbrev pub new_secure : Option Handler → ℕ → ℕ → Text → Text → Text → ℕ → SecureServer
new_secure on_error pool port certificate_file private_key_file verify_file count = record {
  base = new https on_error pool port count;
  certificate_file = certificate_file;
  private_key_file = private_key_file;
  verify_file = verify_file;
}

unfoldable pub set_io_thread_count_secure : Bool → ℕ → SecureServer → SecureServer
set_io_thread_count_secure running count s = record s {
  base = set_io_thread_count running count s.base;
}

unfoldable pub reset_start_secure : SecureServer → SecureServer
reset_start_secure s = record s { base = reset_start s.base }

unfoldable pub report_secure : Report → SecureServer → SecureServer
report_secure r s = record s { base = report r s.base }

unfoldable pub set_last_error_secure : Text → SecureServer → SecureServer
set_last_error_secure message s = record s { base = set_last_error message s.base }

unfoldable pub wait_listening_secure : ℤ → SecureServer → Bool
wait_listening_secure timeout s = wait_listening timeout s.base

unfoldable pub pre_run_secure : Making → SecureServer → SecureServer × Bool
pre_run_secure m s = let (base, made) = pre_run m s.base in (record s { base = base }, made)

unfoldable pub process_work_secure : List IoEnd → SecureServer × Bool → SecureServer × Bool
process_work_secure ends (s, stop) =
    let (base, stop') = process_work ends (s.base, stop) in (record s { base = base }, stop')

unfoldable pub run_secure : Course → SecureServer → SecureServer
run_secure c s = record s { base = run c s.base }

unfoldable pub stop_triggered_secure : SecureServer → SecureServer
stop_triggered_secure s = record s { base = stop_triggered s.base }

-- Starts of the server whose `run` comes to its end.
abbrev pub cycles_secure : List (ℕ × Course) → SecureServer → SecureServer
cycles_secure [] s = s
cycles_secure ((io, c) ∷ xs) s = cycles_secure xs (run_secure c (pre_run_secure (makes io) s).0)

cycles_secure-base :
    (xs : List (ℕ × Course)) (s : SecureServer)
    → cycles_secure xs s ≡ record s { base = cycles xs s.base }
unfolding run_secure pre_run_secure
cycles_secure-base [] s = refl
cycles_secure-base ((io, c) ∷ xs) s =
    cycles_secure-base xs (run_secure c (pre_run_secure (makes io) s).0)

-- The server with certificates, after any number of starts and ends of it whose `run` did not throw,
-- and one more `preRun`: it has the files that it was made from, and an error is told to the user's
-- handler, once, and kept as `lastError`.
pub cycles_secure-call_handler :
    (xs : List (ℕ × Course)) (io h : ℕ) (error : Text) (s : SecureServer)
    → AllFinish xs
    → s.base.on_error ≡ some (user h)
    → let t = (pre_run_secure (makes io) (cycles_secure xs s)).0 in
      (t ≡ record s { base = t.base })
      × (call_handler 1 t.base.on_error error t.base
          ≡ some ((h, error) ∷ [], set_last_error error t.base))
unfolding pre_run_secure
cycles_secure-call_handler xs io h error s a e =
    rw (cycles_secure-base xs s) (refl, cycles-call_handler xs io h error s.base a e)
