-- ===== src/HttpServer/Secure.antt =====
-- cHTTPSServer.cpp: the server with certificates, whose other code is that of `Serving`.
use thread_component.Prelude.{
  ◌≡◌, refl, Bool, true, false, List, [], ◌∷◌, not, ◌&&◌, ◌||◌, is_nil, if◌then◌else◌, arith,
}
use thread_component.HttpClient.Text.{Text}
use thread_component.HttpServer.Messages.{files_required}
use thread_component.HttpServer.Settings.{Setter, set_all}
use thread_component.HttpServer.Start.{Report, reset_start_state, resolve_start_if_pending}
use thread_component.HttpServer.Serving.{
  Impl, Ending, finishes, Course, failed, report, reset_start, pre_run, run, stop_triggered,
}

-- `st_Impl`: the fields of `Impl`, and the files.
pub record SecureImpl (H E : Type 0) : Type 0 where
  pub base : Impl H E
  pub certificate_file : Text
  pub private_key_file : Text
  pub verify_file : Text

module _ {H E : Type 0} where
  unfoldable pub set_certificate_files : Bool → Text → Text → Text → SecureImpl H E → SecureImpl H E
  set_certificate_files running certificate_file private_key_file verify_file s =
      if running then s else record s {
        certificate_file = certificate_file;
        private_key_file = private_key_file;
        verify_file = verify_file;
      }

  unfoldable pub set_all_secure : List (Bool × Setter) → SecureImpl H E → SecureImpl H E
  set_all_secure xs s = record s { base = record s.base { settings = set_all xs s.base.settings } }

  unfoldable pub reset_start_secure : SecureImpl H E → SecureImpl H E
  reset_start_secure s = record s { base = reset_start s.base }

  unfoldable pub report_secure : Report → SecureImpl H E → SecureImpl H E
  report_secure r s = record s { base = report r s.base }

  unfoldable pub pre_run_secure : Ending → SecureImpl H E → SecureImpl H E × Bool
  unfolding report_secure
  pre_run_secure e s =
      let (base, made) = pre_run e s.base in
      if is_nil s.certificate_file || is_nil s.private_key_file
      then (report_secure (failed files_required) s, false)
      else (record s { base = base }, made)

  unfoldable pub run_secure : Course → SecureImpl H E → SecureImpl H E
  run_secure c s = record s { base = run c s.base }

  unfoldable pub stop_triggered_secure : Bool → SecureImpl H E → SecureImpl H E
  stop_triggered_secure stop_throws s = record s { base = stop_triggered stop_throws s.base }

  -- After `setCertificateFiles` on a server that does not run, a start makes the server where both
  -- files are named, and is decided as a failure, with the port 0, where one is not; that is all that
  -- `preRun` then changes.
  pub set_certificate_files-pre_run :
      (cert key verify : Text) (s : SecureImpl H E)
      → let t = reset_start_secure (set_certificate_files false cert key verify s) in
        let (u, made) = pre_run_secure finishes t in
        (made ≡ (not (is_nil cert) && not (is_nil key)))
        × (made ≡ false
            → u ≡ record t {
              base = record t.base {
                start = record {
                  start_resolved = true;
                  start_succeeded = false;
                  listening_port = 0;
                  last_error = files_required;
                };
              };
            })
  unfolding set_certificate_files reset_start_secure pre_run_secure reset_start report pre_run
      report_secure resolve_start_if_pending reset_start_state
  set_certificate_files-pre_run [] key verify s = (refl, λ _. refl)
  set_certificate_files-pre_run (x ∷ cert) [] verify s = (refl, λ _. refl)
  set_certificate_files-pre_run (x ∷ cert) (y ∷ key) verify s =
      (refl, λ e. absurd (ground (arith, e)))
