-- ===== src/Controller/Tests.antt =====
-- Requests to the controller of controllers/controlledjob_controller.go, and its index.
use controlled_job.Base.{◌≡◌, refl, true, false, Option, none, some, List, [], ◌∷◌, Memᴰ, ◌↔◌}
use controlled_job.Base.Int.{pos}
use controlled_job.Errors.{ok, err, Result}
use controlled_job.Kube.{Job}
use controlled_job.Client.{Call, Failure, failed, create_call}
use controlled_job.Decision.{Outcome, no_decision}
use controlled_job.Reconcile.{make_decision}
use controlled_job.Builder.{build_job}
use controlled_job.Controller.{listed}
use controlled_job.Controller.Requests.{IsHandedOver, request_returned, result}
use controlled_job.Controller.Listing.{SetsOwner, build_job-listed}
use controlled_job.Samples.{
  sample_env, sample_calendar, sample_cluster, scheduled_live, sample_live, sample_controlled_job,
  running_job,
}
use controlled_job.Samples.Run.{made}

sample_env-SetsOwner : SetsOwner sample_env
sample_env-SetsOwner cj job owned e = (cc, cc)

abbrev refuse_creation : List Call → Call → Option Failure
refuse_creation calls (create_call job) = some (failed "no")
refuse_creation calls _ = none

abbrev or_nothing : Option Outcome → Outcome
or_nothing none = record { live = sample_live; decision = no_decision; error = none }
or_nothing (some o) = o

abbrev judged : Outcome
judged = or_nothing (make_decision sample_env sample_calendar true 120 [] (scheduled_live none))

request_returned_example :
    IsHandedOver sample_env
      (sample_cluster [] refuse_creation)
      120
      sample_calendar
      true
      "cj"
      "ns"
      (scheduled_live none).object
      []
      judged
      (result sample_env
        (sample_cluster [] refuse_creation)
        120
        sample_calendar
        true
        "cj"
        "ns"
        (scheduled_live none).object
        [])
unfolding made
request_returned_example =
    request_returned sample_env (sample_cluster [] refuse_creation) 120 sample_calendar true "cj"
      "ns" (scheduled_live none).object [] judged refl refl refl

abbrev or_job : Result Job → Job
or_job (ok job) = job
or_job (err e) = running_job "none" "0"

abbrev built : Job
built = or_job (build_job sample_env sample_controlled_job 100 (pos 0) false false)

build_job-listed_example :
    Memᴰ built (listed "cj" "ns" (built ∷ []))
    ↔ (("cj" ≡ sample_controlled_job.name) × ("ns" ≡ sample_controlled_job.namespace))
unfolding made
build_job-listed_example =
    build_job-listed sample_env sample_env-SetsOwner tt sample_controlled_job 100 (pos 0) false
      false built (built ∷ []) "cj" "ns" refl (Memᴰ.head refl)
