-- ===== src/Mutators/Remote/Tests.antt =====
-- A webhook for pkg/mutators/remote_mutator.go that always gives one answer.
use controlled_job.Base.{◌≡◌, ◌↔◌, refl, Option, none, some, true, false, str_append}
use controlled_job.Errors.{ok}
use controlled_job.Kube.{Job}
use controlled_job.Mutators.Remote.{
  Web, AdmissionReview, AdmissionResponse, remote_apply, make_webhook_request, send_request,
  read_response, response_of, act_on_response, denied, apply_patch,
}
use controlled_job.Mutators.Remote.Outcome.{Answers, IsUnreadable, remote_apply_panics}
use controlled_job.Mutators.Remote.Success.{IsGranted, remote_apply_succeeds}
use controlled_job.Samples.{running_job}

-- A patch appends its text to the JSON of the job, which is its body, and is read into the body.
abbrev answering : Option AdmissionReview → Web
answering review = record {
  new_uuid = "1";
  url_error = λ url. none;
  send = λ request. ok (record { status_code = 200; body = ok "review" });
  encode_request = λ request. request.name;
  decode_review = λ text. ok review;
  encode_job = λ job. job.spec.body;
  unmarshal_into = λ job text. ok (record job { spec = record job.spec { body = text } });
  decode_patch = λ text. ok (λ body. ok (str_append body text));
}

abbrev silent_refusal : Option AdmissionReview
silent_refusal =
    some (record { response = some (record { allowed = false; result = none; patch = "" }) })

abbrev patching : AdmissionResponse
patching = record { allowed = true; result = none; patch = "+sidecar" }

abbrev a_job : Job
a_job = running_job "a" "100"

abbrev patched_job : Job
patched_job = record a_job { spec = record a_job.spec { body = "spec+sidecar" } }

panics : remote_apply (answering silent_refusal) "http://webhook" a_job ≡ none
unfolding remote_apply make_webhook_request send_request read_response response_of act_on_response
    denied
panics = refl

remote_apply_panics_example :
    (remote_apply (answering silent_refusal) "http://webhook" a_job ≡ none) ↔ (
      (review : Option AdmissionReview) × Answers
        (answering silent_refusal)
        "http://webhook"
        a_job
        review
      × IsUnreadable (answering silent_refusal) "http://webhook" a_job review)
remote_apply_panics_example = remote_apply_panics (answering silent_refusal) "http://webhook" a_job

succeeds :
    remote_apply (answering (some (record { response = some patching }))) "http://webhook" a_job
    ≡ some (ok patched_job)
unfolding remote_apply make_webhook_request send_request read_response response_of act_on_response
    apply_patch
succeeds = refl

remote_apply_succeeds_example :
    (remote_apply (answering (some (record { response = some patching }))) "http://webhook" a_job
      ≡ some (ok patched_job))
    ↔ ((response : AdmissionResponse) × Answers
          (answering (some (record { response = some patching })))
          "http://webhook"
          a_job
          (some (record { response = some response }))
        × IsGranted
            (answering (some (record { response = some patching })))
            "http://webhook"
            a_job
            patched_job
            response)
remote_apply_succeeds_example =
    remote_apply_succeeds (answering (some (record { response = some patching }))) "http://webhook"
      a_job patched_job
