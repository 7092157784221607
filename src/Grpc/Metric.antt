-- ===== src/Grpc/Metric.antt =====
-- cGrpcServerWorker.h: the worker of `cGenericGrpcWorker` that answers every request alike. The
-- text that it prints is left out.
use thread_component.Prelude.{◌≡◌, refl, ap, ◌∙◌, Bool, true, List, [], ◌∷◌, map}
use thread_component.Grpc.Answers.{answer, served, reach-answers}
use thread_component.Grpc.Call.{Status, Worker, Outcome, returns, final_status}
use thread_component.Grpc.System.{Reach}
use thread_component.HttpClient.Text.{Text}

-- `analytics::MetricResponse`, as far as the source sets it.
pub record MetricResponse : Type 0 where
  pub success : Bool
  pub message : Text

-- "Metric written safely via Worker loop."
abbrev pub written : Text
written =
    77 ∷ 101 ∷ 116 ∷ 114 ∷ 105 ∷ 99 ∷ 32 ∷ 119 ∷ 114 ∷ 105 ∷ 116 ∷ 116 ∷ 101 ∷ 110 ∷ 32 ∷ 115 ∷ 97
    ∷ 102 ∷ 101 ∷ 108 ∷ 121 ∷ 32 ∷ 118 ∷ 105 ∷ 97 ∷ 32 ∷ 87 ∷ 111 ∷ 114 ∷ 107 ∷ 101 ∷ 114 ∷ 32 ∷ 108
    ∷ 111 ∷ 111 ∷ 112 ∷ 46 ∷ []

-- `grpc::Status::OK`.
abbrev pub ok_status : Status
ok_status = record { code = 0; message = [] }

unfoldable pub on_execute_rpc : MetricResponse → MetricResponse × Outcome
on_execute_rpc reply = (record reply { success = true; message = written }, returns ok_status)

-- What was done on each request is what this worker does, whatever reply it was given.
abbrev pub AreExecuted : List (MetricResponse × Outcome) → Type 0
AreExecuted [] = Unit
AreExecuted (x ∷ xs) = ((reply : MetricResponse) × (x ≡ on_execute_rpc reply)) × AreExecuted xs

abbrev pub accepted : MetricResponse × Status
accepted = (record { success = true; message = written }, ok_status)

executed-answers :
    (xs : List (MetricResponse × Outcome)) → AreExecuted xs → map answer xs ≡ map (λ _. accepted) xs
unfolding on_execute_rpc final_status
executed-answers [] h = refl
executed-answers (x ∷ xs) ((reply, e), h) =
    ap (λ y. answer y ∷ map answer xs) e ∙ ap (λ ys. accepted ∷ ys) (executed-answers xs h)

-- In a run of this worker each request that came is answered once, with success and the status OK.
pub reach-accepted :
    (w : Worker MetricResponse) (r : Reach w)
    → AreExecuted (served r)
    → w.finished ≡ map (λ _. accepted) (served r)
reach-accepted w r h = reach-answers w r ∙ executed-answers (served r) h
