-- ===== src/HttpServer/Preparations.antt =====
-- cHTTPServer.cpp and cHTTPSServer.cpp: the two `preRun`, as preparations of a start.
use thread_component.Prelude.{◌≡◌, ◌⊎◌, refl, inl, inr, Bool, true, false, is_nil, ◌||◌, Bool-cases}
use thread_component.HttpClient.Text.{Text}
use thread_component.HttpServer.Messages.{initialize_failed, files_required}
use thread_component.HttpServer.Start.{resolve_start_if_pending}
use thread_component.HttpServer.Serving
use thread_component.HttpServer.Serving.{
  Impl, Ending, finishes, throws, throws_other, failed, report,
}
use thread_component.HttpServer.Secure.{SecureImpl, pre_run_secure, report_secure}
use thread_component.HttpServer.Hosted.{Preparation}

module _ {H E : Type 0} where
  -- What a preparation has to be told to have done.
  abbrev pub IsOutcome : Impl H E → Impl H E × Bool → Type 0
  IsOutcome s r =
      ((r.1 ≡ true) × (r.0.start ≡ s.start))
      ⊎ ((r.1 ≡ false)
          × (message : Text) × (r.0.start ≡ resolve_start_if_pending (failed message) s.start))

  pub pre_run-IsOutcome : (e : Ending) (s : Impl H E) → IsOutcome s (Serving.pre_run e s)
  unfolding Serving.pre_run report
  pre_run-IsOutcome finishes s = inl (refl, refl)
  pre_run-IsOutcome (throws what) s = inr (refl, what, refl)
  pre_run-IsOutcome throws_other s = inr (refl, initialize_failed s.protocol, refl)

  abbrev pub http_preparation : Preparation H E
  http_preparation = record { pre_run = Serving.pre_run; outcome = pre_run-IsOutcome }

  abbrev pub with_files : Text → Text → Text → Impl H E → SecureImpl H E
  with_files certificate_file private_key_file verify_file s = record {
    base = s;
    certificate_file = certificate_file;
    private_key_file = private_key_file;
    verify_file = verify_file;
  }

  -- The files, which cannot be set while the worker runs, are arguments.
  unfoldable pub pre_run_with : Text → Text → Text → Ending → Impl H E → Impl H E × Bool
  unfolding pre_run_secure
  pre_run_with certificate_file private_key_file verify_file e s =
      let (t, made) =
        pre_run_secure e (with_files certificate_file private_key_file verify_file s) in
      (t.base, made)

  pub pre_run_with-IsOutcome :
      (certificate_file private_key_file verify_file : Text) (e : Ending) (s : Impl H E)
      → IsOutcome s (pre_run_with certificate_file private_key_file verify_file e s)
  unfolding pre_run_with report_secure report
  pre_run_with-IsOutcome c k v e s = elim (Bool-cases (is_nil c || is_nil k)) [
    | inl missing ↦ rw missing (inr (refl, files_required, refl))
    | inr named ↦ rw named (pre_run-IsOutcome e s)
  ]

  abbrev pub https_preparation : Text → Text → Text → Preparation H E
  https_preparation certificate_file private_key_file verify_file = record {
    pre_run = pre_run_with certificate_file private_key_file verify_file;
    outcome = pre_run_with-IsOutcome certificate_file private_key_file verify_file;
  }
