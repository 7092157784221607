-- ===== src/HttpServer/SecureReplies.antt =====
-- cHTTPSServer.cpp: the calls that prepare a server with certificates, `preRun`, and a request.
use thread_component.Prelude.{
  ℕ, ◌≡◌, refl, ap, ◌∙◌, Bool, true, false, Option, none, some, List, [], ◌∷◌, ◌||◌, not, is_nil,
  if◌then◌else◌,
}
use thread_component.HttpClient.Text.{Text}
use thread_component.HttpServer.Messages.{https}
use thread_component.HttpServer.Snapshot.{Incoming, make_request_snapshot}
use thread_component.HttpServer.Requests.{
  RequestHandler, ErrorHandler, Target, unhandled_at_secure, call_target_secure,
}
use thread_component.HttpServer.Response.{Printing}
use thread_component.HttpServer.Framing.{head_lines, PrintsLines}
use thread_component.HttpServer.Serving.{
  Impl, finishes, pre_run, report, make_library, set_error_handler,
}
use thread_component.HttpServer.Secure.{
  SecureImpl, set_certificate_files, pre_run_secure, report_secure,
}
use thread_component.HttpServer.Setup.{
  calls_setter, adds_resource, sets_default_resource, sets_error_handler, Setup, new_impl, set_up,
  set_up_all,
}
use thread_component.HttpServer.Configured.{last_handler}
use thread_component.HttpServer.Answered.{reply, HaveLines}
use thread_component.HttpServer.Replies.{handler_at, exchange, make_library-read}

pub data SecureSetup (H E : Type 0) : Type 0 where
  sets_up : Setup H E → SecureSetup H E
  sets_certificate_files : Text → Text → Text → SecureSetup H E

-- The three files.
abbrev pub Files : Type 0
Files = Text × Text × Text

module _ {H E : Type 0} where
  abbrev pub new_secure : Files → ℕ → Text → ℕ → SecureImpl H E
  new_secure (certificate_file, private_key_file, verify_file) port bind_address thread_pool_size =
      record {
        base = new_impl https port bind_address thread_pool_size;
        certificate_file = certificate_file;
        private_key_file = private_key_file;
        verify_file = verify_file;
      }

  unfoldable pub set_up_secure : Bool → SecureSetup H E → SecureImpl H E → SecureImpl H E
  unfolding set_certificate_files
  set_up_secure running (sets_up x) s = record s { base = set_up running x s.base }
  set_up_secure running (sets_certificate_files certificate_file private_key_file verify_file) s =
      set_certificate_files running certificate_file private_key_file verify_file s

  unfoldable pub set_up_all_secure : List (Bool × SecureSetup H E) → SecureImpl H E → SecureImpl H E
  unfolding set_up_secure
  set_up_all_secure [] s = s
  set_up_all_secure ((running, x) ∷ xs) s = set_up_all_secure xs (set_up_secure running x s)

  -- The calls that the two classes share.
  abbrev pub shared_calls : List (Bool × SecureSetup H E) → List (Bool × Setup H E)
  shared_calls [] = []
  shared_calls ((running, sets_up x) ∷ xs) = (running, x) ∷ shared_calls xs
  shared_calls ((running, sets_certificate_files c k v) ∷ xs) = shared_calls xs

  -- The files after the calls.
  unfoldable pub last_files : List (Bool × SecureSetup H E) → Files → Files
  last_files [] old = old
  last_files ((running, sets_up x) ∷ xs) old = last_files xs old
  last_files ((running, sets_certificate_files c k v) ∷ xs) old =
      last_files xs (if running then old else (c, k, v))

  abbrev files_of : SecureImpl H E → Files
  files_of s = (s.certificate_file, s.private_key_file, s.verify_file)

  set_certificate_files-files :
      (running : Bool) (c k v : Text) (s : SecureImpl H E)
      → let t = set_certificate_files running c k v s in
        (t.base ≡ s.base) × (files_of t ≡ (if running then files_of s else (c, k, v)))
  unfolding set_certificate_files
  set_certificate_files-files true c k v s = (refl, refl)
  set_certificate_files-files false c k v s = (refl, refl)

  set_up_all_secure-parts :
      (xs : List (Bool × SecureSetup H E)) (s : SecureImpl H E)
      → let t = set_up_all_secure xs s in
        (t.base ≡ set_up_all (shared_calls xs) s.base) × (files_of t ≡ last_files xs (files_of s))
  unfolding set_up_all_secure set_up_all last_files
  set_up_all_secure-parts [] s = (refl, refl)
  set_up_all_secure-parts ((running, sets_up x) ∷ xs) s =
      set_up_all_secure-parts xs (record s { base = set_up running x s.base })
  set_up_all_secure-parts ((running, sets_certificate_files c k v) ∷ xs) s =
      let t = set_certificate_files running c k v s in
      let (a, b) = set_certificate_files-files running c k v s in
      let (a', b') = set_up_all_secure-parts xs t in
      (a' ∙ ap (set_up_all (shared_calls xs)) a, b' ∙ ap (last_files xs) b)

  set_up-server :
      (running : Bool) (x : Setup H E) (s : Impl H E) → (set_up running x s).server ≡ s.server
  unfolding set_up set_error_handler
  set_up-server running (calls_setter x) s = refl
  set_up-server running (adds_resource path method handler) s = refl
  set_up-server running (sets_default_resource method handler) s = refl
  set_up-server true (sets_error_handler handler) s = refl
  set_up-server false (sets_error_handler handler) s = refl

  set_up_all-server :
      (xs : List (Bool × Setup H E)) (s : Impl H E) → (set_up_all xs s).server ≡ s.server
  unfolding set_up_all
  set_up_all-server [] s = refl
  set_up_all-server ((running, x) ∷ xs) s =
      set_up_all-server xs (set_up running x s) ∙ set_up-server running x s

-- Whether the files that a server needs are named.
abbrev pub has_files : Files → Bool
has_files (certificate_file, private_key_file, verify_file) =
    not (is_nil certificate_file || is_nil private_key_file)

pre_run_secure-server :
    {H E : Type 0} (s : SecureImpl H E)
    → (pre_run_secure finishes s).0.base.server
      ≡ (if has_files (files_of s) then some (make_library s.base) else s.base.server)
unfolding pre_run_secure pre_run report_secure report
pre_run_secure-server s = by_files (is_nil s.certificate_file || is_nil s.private_key_file) refl
  where
    by_files :
        (b : Bool)
        → (is_nil s.certificate_file || is_nil s.private_key_file) ≡ b
        → (pre_run_secure finishes s).0.base.server
          ≡ (if not b then some (make_library s.base) else s.base.server)
    by_files true h = rw h refl
    by_files false h = rw h refl

-- A request to an HTTPS server that was prepared by any calls in any order, the last of them that gave
-- a handler for what the library chooses having given this one. If the certificate and the key that
-- were set last are named, `preRun` makes a server that answers it, and the bytes are read as one
-- answer, as for HTTP, with the texts of HTTPS; if one of them is not, `preRun` makes none.
-- Conditions: the handler answers and ends, and keeps no copy of the response; no header in an answer
-- of it has a carriage return, and no text that the library prints has one.
pub set_up_all_secure-exchange :
    (p : Printing) (xs : List (Bool × SecureSetup RequestHandler ErrorHandler)) (files : Files)
    (port : ℕ) (address : Text) (pool : ℕ) (t : Target) (m : Text) (handler : RequestHandler)
    (incoming : Option Incoming) (last_error : Text)
    → handler_at (shared_calls xs) t m ≡ some handler
    → PrintsLines p
    → HaveLines (handler (make_request_snapshot incoming)).0
    → let s =
        (pre_run_secure finishes (set_up_all_secure xs (new_secure files port address pool))).0 in
      let u = unhandled_at_secure t in
      let a = reply u handler (last_handler (shared_calls xs) none) incoming in
      exchange (λ l. call_target_secure l t m incoming last_error) p a s.base.server
      ≡ (if has_files (last_files xs files) then some (head_lines p a, a.body) else none)
unfolding call_target_secure
set_up_all_secure-exchange p xs files port address pool t m handler incoming last_error h k lines =
    let u = unhandled_at_secure t in
    let a = reply u handler (last_handler (shared_calls xs) none) incoming in
    let s : SecureImpl RequestHandler ErrorHandler = new_secure files port address pool in
    let v = set_up_all_secure xs s in
    let named = has_files (last_files xs files) in
    let (base, fs) = set_up_all_secure-parts xs s in
    let ready = set_up_all (shared_calls xs) s.base in
    let made : (pre_run_secure finishes (set_up_all_secure xs s)).0.base.server
        ≡ (if has_files (last_files xs files) then some (make_library ready) else none) =
      pre_run_secure-server v
      ∙ ap (λ f. if has_files f then some (make_library v.base) else v.base.server) fs
      ∙ ap (λ b. if named then some (make_library b) else b.server) base
      ∙ ap (λ o. if named then some (make_library ready) else o)
          (set_up_all-server (shared_calls xs) s.base) in
    ap (λ o. exchange (λ l. call_target_secure l t m incoming last_error) p a o) made
    ∙ elim (has_files (last_files xs files))
        as (λ b.
          exchange (λ l. call_target_secure l t m incoming last_error) p a
            (if b then some (make_library ready) else none)
          ≡ (if b then some (head_lines p a, a.body) else none)) [
            | true ↦
                make_library-read p u (shared_calls xs) https port address pool t m handler incoming
                  last_error h k lines
            | false ↦ refl
          ]
