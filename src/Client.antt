-- ===== src/Client.antt =====
-- The client of the cluster: pkg/clientadapter/controller_client_adapter.go, with every call that
-- the operator makes written down, and the event handler of pkg/events/handler.go and
-- pkg/events/event_recorder.go, which emits an event and records an action.
use controlled_job.Base.{
  ℕ, suc, String, Bool, true, false, Option, none, some, List, [], ◌∷◌, ◌++◌, is_some,
  if◌then◌else◌,
}
use controlled_job.Errors.{Error, message}
use controlled_job.Kube.{Time, Job}
use controlled_job.Api.{ControlledJob, ActionHistoryEntry}
use controlled_job.Api.Conditions.{Live, with_status}
use controlled_job.Events.{is_warning_event}
use controlled_job.Events.History.{add_action_history_entry_ignoring_duplicates}

-- What the API server refuses a request with.
pub data Failure : Type 0 where
  not_found : String → Failure
  failed : String → Failure

pub data Call : Type 0 where
  get_call : String → String → Call
  list_call : String → String → Call
  create_call : Job → Call
  update_call : Job → Call
  delete_call : Job → String → Call
  update_status_call : ControlledJob → Call
  update_object_call : ControlledJob → Call
  -- recorder.Event with its type, reason and message
  event_call : String → String → String → Call

-- The API server. A write is answered by what was called before it.
pub record Cluster : Type 0 where
  pub get : String → String → (Option Failure) × ControlledJob
  pub list : String → String → (Option Error) × List Job
  pub answer : List Call → Call → Option Failure

-- The object under work and the calls so far, the first one first.
pub record World : Type 0 where
  pub live : Live
  pub calls : List Call

abbrev pub as_error : Failure → Error
as_error (not_found m) = message m
as_error (failed m) = message m

abbrev pub error_of : Option Failure → Option Error
error_of none = none
error_of (some f) = some (as_error f)

-- client.IgnoreNotFound
abbrev pub ignore_not_found : Option Failure → Option Error
ignore_not_found none = none
ignore_not_found (some (not_found m)) = none
ignore_not_found (some (failed m)) = some (message m)

abbrev pub calling : Call → World → World
calling c w = record w { calls = w.calls ++ c ∷ [] }

abbrev pub on_live : (Live → Live) → World → World
on_live f w = record w { live = f w.live }

abbrev pub with_suspend : Bool → Job → Job
with_suspend b job = record job { spec = record job.spec { suspend = some b } }

module _ (cluster : Cluster) where
  abbrev respond : Call → World → Option Failure
  respond c w = cluster.answer w.calls c

  -- The pointer returned is never nil.
  unfoldable pub get_controlled_job :
      String → String → (Option ControlledJob) × Bool × (Option Error)
  get_controlled_job name namespace =
      let (failure, cj) = cluster.get name namespace in
      (some cj, if is_some failure then false else true, ignore_not_found failure)

  unfoldable pub update_controlled_job : ControlledJob → World → (Option Error) × World
  update_controlled_job cj w =
      (error_of (respond (update_object_call cj) w), calling (update_object_call cj) w)

  -- Jobs of the namespace whose index `.metadata.controller` has the name.
  abbrev pub list_jobs_for_controlled_job : String → String → (Option Error) × List Job
  list_jobs_for_controlled_job name namespace = cluster.list name namespace

  unfoldable pub update_status : ControlledJob → World → (Option Error) × World
  update_status cj w =
      (error_of (respond (update_status_call cj) w), calling (update_status_call cj) w)

  unfoldable pub create_job : Job → World → (Option Error) × World
  create_job job w = (error_of (respond (create_call job) w), calling (create_call job) w)

  unfoldable pub suspend_job : Job → World → (Option Error) × World
  suspend_job job w =
      let c = update_call (with_suspend true job) in (error_of (respond c w), calling c w)

  unfoldable pub unsuspend_job : Job → World → (Option Error) × World
  unsuspend_job job w =
      let c = update_call (with_suspend false job) in (error_of (respond c w), calling c w)

  -- A job that is gone already is no error.
  unfoldable pub delete_job : Job → String → World → (Option Error) × World
  delete_job job propagation w =
      let c = delete_call job propagation in (ignore_not_found (respond c w), calling c w)

-- recordEvent, with the type by the action's name, and the history of the status.
unfoldable pub record_event : ActionHistoryEntry → World → World
record_event action w =
    let kind = if is_warning_event action.event_type then "Warning" else "Normal" in
    on_live
      (λ live. record live {
        object =
            with_status live.object
              (add_action_history_entry_ignoring_duplicates live.object.status action);
      })
      (calling (event_call kind action.event_type action.message) w)

-- An action takes the time when it is made: `time.Now` is read.
unfoldable pub record_action : (ℕ → Time) → (Time → ActionHistoryEntry) → World → World
record_action clock action w =
    record_event (action (clock w.live.readings))
      (on_live (λ live. record live { readings = suc live.readings }) w)
