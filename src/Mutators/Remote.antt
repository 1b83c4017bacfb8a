-- ===== src/Mutators/Remote.antt =====
-- The mutator that asks a webhook: pkg/mutators/remote_mutator.go, with the interface of
-- pkg/mutators/utils/http_utils.go, and EnableRemoteMutator of pkg/mutators/registry.go.
pub mod Outcome
pub mod Success
mod Tests
use controlled_job.Base.{
  ℕ, String, Bool, true, false, not, Option, none, some, List, [], ◌∷◌, str_eq, ltb, if◌then◌else◌,
}
use controlled_job.Base.Int.{ℤ}
use controlled_job.Base.Text.{concat}
use controlled_job.Base.Decimal.{print_ℕ, print_ℤ}
use controlled_job.Errors.{Error, message, wrap, Result, ok, err, Run, then_run}
use controlled_job.Kube.{Job}
use controlled_job.Mutators.{Mutator, Registry, register}

-- k8s.io/api/admission/v1: what is asked, and what is answered.
pub record AdmissionRequest : Type 0 where
  pub uid : String
  pub kind : String × String × String
  pub resource : String × String × String
  pub name : String
  pub namespace : String
  pub operation : String
  pub object : Job

pub record Status : Type 0 where
  pub code : ℤ
  pub reason : String
  pub text : String

pub record AdmissionResponse : Type 0 where
  pub allowed : Bool
  pub result : Option Status
  pub patch : String

-- An AdmissionReview that was decoded, with its pointer to the response.
pub record AdmissionReview : Type 0 where
  pub response : Option AdmissionResponse

pub record HttpRequest : Type 0 where
  pub method : String
  pub url : String
  pub content_type : String
  pub payload : String

-- The body is read to its end, or fails.
pub record HttpResponse : Type 0 where
  pub status_code : ℕ
  pub body : Result String

-- UUIDs, net/http, the JSON of the Kubernetes types, and the JSON patches of
-- github.com/evanphx/json-patch. A patch is given by what it does to a text.
pub record Web : Type 0 where
  pub new_uuid : String
  -- the error of http.NewRequest for a URL
  pub url_error : String → Option Error
  pub send : HttpRequest → Result HttpResponse
  pub encode_request : AdmissionRequest → String
  -- Decode into a pointer to an AdmissionReview, which `null` makes nil
  pub decode_review : String → Result (Option AdmissionReview)
  pub encode_job : Job → String
  -- Unmarshal into an existing job: fields that the text does not name stay
  pub unmarshal_into : Job → String → Result Job
  pub decode_patch : String → Result (String → Result String)

-- `fmt.Errorf(text + ": %w", err)` of a call's error, returned at once.
abbrev wrap_result {ℓ} : {A : Type ℓ} → String → Result A → Run A
wrap_result m (ok a) = some (ok a)
wrap_result m (err e) = some (err (wrap e m))

-- A status of 300 or more is an error, which shows the body where it can be read.
unfoldable pub refused : ℕ → Result String → Error
refused status (ok text) =
    message (concat ("webhook request returned status code " ∷ print_ℕ status ∷ ": " ∷ text ∷ []))
refused status (err e) = wrap e (
    concat (
      "webhook request returned status code "
      ∷ print_ℕ status
      ∷ ", and failed to read body of response"
      ∷ []))

-- `response.Response` of a nil review panics; the field itself may be nil.
unfoldable pub response_of : Option AdmissionReview → Run (Option AdmissionResponse)
response_of none = none
response_of (some review) = some (ok review.response)

-- A webhook that says no has to say why: a nil Result panics.
unfoldable pub denied : Option Status → Run Job
denied none = none
denied (some status) = some (
    err (
      message (
        concat (
          "failed to mutate job: "
          ∷ print_ℤ status.code
          ∷ " "
          ∷ status.reason
          ∷ " - "
          ∷ status.text
          ∷ []))))

-- The registry's mutators return; a panic, which ends the operator, stands as an error there.
abbrev returned : Run Job → Result Job
returned none = err (message "panic")
returned (some r) = r

module _ (web : Web) where
  unfoldable pub build_admission_review : Job → AdmissionRequest
  build_admission_review job = record {
    uid = web.new_uuid;
    kind = ("batch", "v1", "Job");
    resource = ("batch", "v1", "jobs");
    name = job.name;
    namespace = job.namespace;
    operation = "CREATE";
    object = job;
  }

  abbrev pub webhook_request : String → AdmissionRequest → HttpRequest
  webhook_request url request = record {
    method = "POST";
    url = url;
    content_type = "application/json";
    payload = web.encode_request request;
  }

  abbrev decode_body : Result String → Result (Option AdmissionReview)
  decode_body (ok text) = web.decode_review text
  decode_body (err e) = err e

  unfoldable pub read_response : HttpResponse → Run (Option AdmissionResponse)
  read_response response =
      if not (ltb response.status_code 300)
      then some (err (refused response.status_code response.body))
      else then_run
          (wrap_result "failed to read response as AdmissionReview resource"
            (decode_body response.body))
          response_of

  -- http.NewRequest has failed, or the request is sent.
  unfoldable pub send_request :
      String → AdmissionRequest → Option Error → Run (Option AdmissionResponse)
  send_request url request (some e) =
      some (err (wrap e (concat ("failed to build webhook request to " ∷ url ∷ []))))
  send_request url request none =
      then_run
        (wrap_result (concat ("failed to send webhook request to " ∷ url ∷ []))
          (web.send (webhook_request url request)))
        read_response

  unfoldable pub make_webhook_request : String → AdmissionRequest → Run (Option AdmissionResponse)
  make_webhook_request url request = send_request url request (web.url_error url)

  unfoldable pub apply_patch : Job → String → Run Job
  apply_patch job text =
      then_run (wrap_result "failed to decode JSONPatch" (web.decode_patch text)) (λ patch.
        then_run (wrap_result "failed to apply JSONPatch" (patch (web.encode_job job))) (λ patched.
          wrap_result "failed to unmarshal result back to a Job object"
            (web.unmarshal_into job patched)))

  -- `response.Allowed` of a nil response panics.
  unfoldable pub act_on_response : Job → Option AdmissionResponse → Run Job
  act_on_response job none = none
  act_on_response job (some response) =
      if not response.allowed
      then denied response.result
      else (if str_eq response.patch "" then some (ok job) else apply_patch job response.patch)

  unfoldable pub remote_apply : String → Job → Run Job
  remote_apply url job =
      then_run (make_webhook_request url (build_admission_review job)) (act_on_response job)

  unfoldable pub remote_mutator : ℕ → String → Mutator
  remote_mutator identity url = record {
    name = "remote";
    identity = identity;
    apply = λ job. returned (remote_apply url job);
  }

  unfoldable pub enable_remote_mutator : ℕ → String → Registry → Result Registry
  enable_remote_mutator identity url r = register (remote_mutator identity url) r
