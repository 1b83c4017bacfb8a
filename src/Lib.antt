-- ===== src/Lib.antt =====
-- ControlledJob: a Kubernetes operator that keeps one job of a schedule running.
--
-- A ControlledJob holds a schedule of start and stop events and a job template. The operator is
-- called with the name of one; it loads it and the jobs that it owns, decides which jobs to create,
-- delete and unsuspend (pkg/reconciliation/decision.go), does so, and writes the status back.
--
-- Base         numbers, texts and lists; decimal text as fmt and strconv write and read it
-- Kube         the parts of Kubernetes objects that the code reads and writes
-- Api          api/v1/controlledjob_types.go with AsCronSpec (Api.CronSpec), and the status
--              conditions of api/v1/helpers.go (Api.Conditions)
-- Errors       wrapped errors, those of pkg/events/events.go included
-- Metadata     pkg/metadata/constants.go and pkg/metadata/job_metadata.go
-- Mutators     pkg/mutators/registry.go; the webhook of remote_mutator.go in Mutators.Remote
-- Env          what the operator calls and does not implement, as a record of functions
-- Builder      pkg/job/builder.go and JobName of pkg/metadata/job_naming.go; ParseJobName there in
--              Builder.Naming
-- State        pkg/reconciliation/state.go; buildState in State.Build
-- Decision     makeDecision of pkg/reconciliation/decision.go from a built state on; the part between
--              its second loop and its last ones in Decision.Choosing
-- Events       pkg/events/events.go, action_entry_helpers.go, and action_history.go (Events.History)
-- Schedule     pkg/schedule/util.go and nearest_event.go, state.go (Schedule.Period),
--              and cron_prev.go (Schedule.CronPrev; UTC in Schedule.CronPrev.Utc)
-- Client       pkg/clientadapter/controller_client_adapter.go, and the event handler of
--              pkg/events/handler.go
-- Reconcile    pkg/reconciliation/reconcile.go; its four loops in Reconcile.Operations, its result in
--              Reconcile.Results, its overall conditions in Reconcile.Overall
-- Decision.Evolution  the jobs once a decision is carried out
-- Lifetime     the jobs in the cluster over time, as the calls of Reconcile take effect or are lost
-- Controller   controllers/controlledjob_controller.go and error_handling.go
-- Metrics      pkg/metrics/metrics.go and watcher.go
-- Operator     main.go and SetupWithManager of controllers/controlledjob_controller.go
-- Cli          the command generate-job of cli/util/generate_job.go, with its flags in cli/main.go
-- Samples      inputs for the tests; runs that surprise in Samples.Surprises
--
-- A ControlledJob that is worked on is passed along explicitly, with the number of readings of the
-- wall clock made so far (Api.Conditions.Live), since SetCondition reads it. A pointer to a job is
-- an address and the job (State.Handle): the code compares such pointers, and a job that
-- makeDecision builds gets the first address after those of the existing jobs.
--
-- Reconcile works on a world: that object and the list of the calls made to the cluster so far. The
-- API server is any function that answers a write by the calls before it; what its writes do to the
-- jobs is a parameter of Lifetime, with what Kubernetes documents of it as Lifetime.IsJobStore. A
-- call that may panic returns an option of a result; `none` is the panic. All loops are structural
-- recursions over lists. Fuel stands in three places: decimal printing of n has n + 1 rounds, each
-- of which drops a digit; cronPrev has 6 * t + 6 tests for an instant t, since one instant is
-- tested at most 6 times and then an earlier one; and the calendar of UTC walks over 9999 years, to
-- the end of those that RFC 3339 writes.
--
-- The wall clock, SHA-256 over JSON, RFC 3339 times, SetControllerReference and GetReference are
-- fields of Env; the cron library and time zones are fields of Schedule.Calendar, whose field
-- cron_prev is the code itself in Schedule.CronPrev.Activation.searching_back, and what cronPrev
-- needs of a time zone is Schedule.CronPrev.Zone. HTTP, JSON and JSON patches are fields of
-- Mutators.Remote.Web; a panic of that mutator stands as an error in the registry. Logging is left
-- out: nothing depends on it. What main asks of the controller runtime is Operator.StartupStep, and
-- Operator.Runtime answers it. Not modelled are generated code and mocks, the helpers of the tests,
-- and the registration of types in pkg/k8s/scheme.go, which is two calls of libraries.
mod Base
pub mod Kube
pub mod Api
pub mod Errors
pub mod Metadata
pub mod Mutators
pub mod Env
pub mod Builder
pub mod State
pub mod Events
pub mod Schedule
pub mod Client
pub mod Controller
pub mod Metrics
pub mod Cli
pub mod Operator
pub mod Reconcile
pub mod Lifetime
mod Samples
pub mod Decision
