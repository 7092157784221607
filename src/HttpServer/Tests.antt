-- ===== src/HttpServer/Tests.antt =====
-- The theorems on the HTTP server at concrete inputs.
use thread_component.Prelude.{
  suc, length, ℕ, Bool, List, ◌≡◌, refl, true, false, none, some, [], ◌∷◌,
}
use thread_component.Prelude.Int.{negsuc}
use thread_component.BaseWorker.{Worker, running}
use thread_component.HttpClient.Text
use thread_component.HttpClient.Text.{Text, iequals}
use thread_component.HttpServer.Answer.{throws, failure, answer_of, handle, handle-answer}
use thread_component.HttpServer.Installed.{AddCall}
use thread_component.HttpServer.Routes.{set_default_resource}
use thread_component.HttpServer.Start.{StartState}
use thread_component.HttpServer.Text.{normalize_method}
use thread_component.HttpServer.Messages.{https}
use thread_component.HttpServer.Settings.{
  Setter, set_port, set_thread_pool_size, set_content_timeout_seconds, IsUsable, configure, set_all,
  settings-IsUsable,
}
use thread_component.HttpServer.Settings
use thread_component.HttpServer.Serving.{Impl, Course, finishes, failed}
use thread_component.HttpServer.Secure.{SecureImpl}
use thread_component.HttpServer.Response.{write_response}
use thread_component.HttpServer.Reader.{read_head}
use thread_component.HttpServer.Framing.{head_lines, read_head-write_response}
use thread_component.HttpServer.Samples.{padded, get, root, printing, printing-PrintsLines, small}

abbrev listening : StartState
listening = record {
  start_resolved = true;
  start_succeeded = true;
  listening_port = 8080;
  last_error = [];
}

abbrev worker : Worker ℕ
worker = record {
  state = running;
  stop_requested = false;
  joinable = true;
  last_unhandled_exception = none;
}

abbrev call : ℕ → AddCall ℕ
call h = record { running = false; path_regex = root; method = padded; handler = some h }

normalize-run : normalize_method padded ≡ get
unfolding normalize_method Text.is_space
normalize-run = refl

default-run : (set_default_resource {H = ℕ} false padded (some 4) []).0 ≡ true
unfolding set_default_resource normalize_method Text.is_space
default-run = refl

handle-answer_example : (handle get [] (throws root) (some false) get).0.written ≡ failure root ∷ []
unfolding answer_of
handle-answer_example = handle-answer get [] (throws root) (some false) get

abbrev calls_of_setters : List (Bool × Setter)
calls_of_setters =
    (false, set_thread_pool_size 0)
    ∷ (true, set_port 1)
    ∷ (false, set_content_timeout_seconds (negsuc 4))
    ∷ []

abbrev impl : Impl ℕ ℕ
impl = record {
  protocol = https;
  settings = Settings.new 80 [] 2;
  start = listening;
  resources = record { path_regex = root; method = get; handler = 1 } ∷ [];
  default_resources = [];
  error_handler = none;
  server = none;
}

-- A run that a stop ends before the server listens.
abbrev stopped_course : Course
stopped_course = record {
  early = [];
  listens = none;
  meanwhile = failed root ∷ [];
  stopping = true;
  ending = finishes;
}

abbrev secure_impl : SecureImpl ℕ ℕ
secure_impl = record { base = impl; certificate_file = []; private_key_file = []; verify_file = [] }

read_head-write_response_example :
    read_head (suc (length (head_lines printing small))) (write_response printing small)
    ≡ some (head_lines printing small, small.body)
read_head-write_response_example =
    read_head-write_response printing small printing-PrintsLines
      (((refl, tt), (refl, (refl, (refl, tt)))), ((tt, (refl, (refl, (refl, tt)))), tt))
