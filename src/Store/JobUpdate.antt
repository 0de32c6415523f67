-- ===== src/Store/JobUpdate.antt =====
-- How the store checks the update of a job against the record that it holds,
-- crates/atelia-core/src/store.rs.
pub mod Evolution
use atelia_secretary.Base.{
  String, ℕ, Bool, true, false, not, ◌&&◌, ◌||◌, Option, none, some, Eq, ◌==◌, ◌!=◌, get, Result,
  ok, err, ◌>>=◌, ◌>>◌, reject_if, ok_or, map_err, ltb, if◌then◌else◌, is_some, is_none, string_eq,
  nat_eq, option_eq,
}
use atelia_secretary.Domain.Ids.{JobId, PolicyDecisionId}
use atelia_secretary.Domain.Repository.{actor_eq}
use atelia_secretary.Domain.Policy.{PolicySummary, summary_eq, PolicyOutcome}
use atelia_secretary.Domain.Job.{
  JobRecord, JobStatus, running, CancellationState, not_requested, requested, status_eq, kind_eq,
  cancellation_eq, is_terminal, transition_status,
}
use atelia_secretary.Domain.Event.{
  JobEvent, JobEventKind, job_status_changed, policy_decided, cancellation_requested,
  EventSubjectType,
}
use atelia_secretary.Domain.Event.{subject_type_eq}
use atelia_secretary.Store.State.{
  StoreError, StoreResult, InMemoryInner, not_found, duplicate_id, conflict, invalid_reference,
}
use atelia_secretary.Store.Checks.{ensure_same_repository}

unfoldable pub job_update_conflict : String → StoreError
job_update_conflict reason = conflict "jobs" reason

unfoldable pub ensure_immutable_job_field :
    {T : Type 0} ⦃e : Eq T⦄ → String → T → T → StoreResult (Unit {0})
ensure_immutable_job_field field_name existing incoming = reject_if (existing != incoming) (
    conflict "jobs"
      "job update for {} attempted to change immutable field {field_name}: existing {:?}, incoming {:?}")

-- The event says that the status went from the one to the other.
unfoldable pub tells_status_change : JobEventKind → JobStatus → JobStatus → Bool
tells_status_change (job_status_changed from to) old new = from == old && to == new
tells_status_change _ old new = false

unfoldable pub is_status_change : JobEventKind → Bool
is_status_change (job_status_changed from to) = true
is_status_change _ = false

unfoldable pub is_cancellation_request : JobEventKind → Bool
is_cancellation_request cancellation_requested = true
is_cancellation_request _ = false

unfoldable pub is_policy_decision : JobEventKind → Bool
is_policy_decision (policy_decided outcome) = true
is_policy_decision _ = false

-- The branch of `validate_job_lifecycle_update` for a changed status.
unfoldable pub validate_status_change : JobRecord → JobRecord → JobEvent → StoreResult (Unit {0})
unfolding job_update_conflict tells_status_change
validate_status_change existing job event = do
  reject_if (not (tells_status_change event.kind existing.status job.status)) (
      job_update_conflict
        "status changed from {:?} to {:?} without matching JobStatusChanged event")
  expected ←
      map_err (λ _. conflict "jobs" "job update for {} has invalid lifecycle transition: {error:?}")
        (transition_status existing job.status job.updated_at)
  reject_if (job.started_at != expected.started_at || job.completed_at != expected.completed_at)
      (job_update_conflict "lifecycle timestamps do not match transition from {:?} to {:?}")

-- The branch for an unchanged status.
unfoldable pub validate_same_status : JobRecord → JobRecord → JobEvent → StoreResult (Unit {0})
unfolding job_update_conflict is_status_change
validate_same_status existing job event = do
  reject_if (is_status_change event.kind)
      (job_update_conflict "JobStatusChanged event did not change materialized job status")
  reject_if (job.started_at != existing.started_at || job.completed_at != existing.completed_at)
      (job_update_conflict "lifecycle timestamps changed without a status transition")

unfoldable pub validate_job_lifecycle_update :
    JobRecord → JobRecord → JobEvent → StoreResult (Unit {0})
unfolding validate_status_change validate_same_status
validate_job_lifecycle_update existing job event = do
  reject_if (ltb job.updated_at existing.updated_at)
      (job_update_conflict "updated_at moved backwards from {:?} to {:?}")
  if job.status != existing.status
      then validate_status_change existing job event
      else validate_same_status existing job event
  reject_if (job.status == running && is_none job.started_at)
      (job_update_conflict "running job must have started_at")
  reject_if (is_terminal job.status && is_none job.completed_at)
      (job_update_conflict "terminal job must have completed_at")
  reject_if (not (is_terminal job.status) && is_some job.completed_at)
      (job_update_conflict "non-terminal job cannot have completed_at")

unfoldable pub validate_job_cancellation_update :
    JobRecord → JobRecord → JobEvent → StoreResult (Unit {0})
unfolding job_update_conflict is_cancellation_request
validate_job_cancellation_update existing job event =
    if job.cancellation_state == existing.cancellation_state
    then reject_if (is_cancellation_request event.kind) (
        job_update_conflict
          "CancellationRequested event did not change materialized cancellation state")
    else reject_if
        (not (
          existing.cancellation_state == not_requested
          && job.cancellation_state == requested
          && is_cancellation_request event.kind))
        (job_update_conflict
          "cancellation_state changed from {:?} to {:?} without matching CancellationRequested event")

summary_decision : Option PolicySummary → Option PolicyDecisionId
summary_decision none = none
summary_decision (some summary) = summary.decision_id

unfoldable pub validate_job_policy_summary_update :
    JobRecord → JobRecord → JobEvent → StoreResult (Unit {0})
unfolding job_update_conflict is_policy_decision summary_decision
validate_job_policy_summary_update existing job event =
    if job.policy_summary == existing.policy_summary then ok tt else do
      reject_if (not (is_policy_decision event.kind))
          (job_update_conflict "policy_summary changed without a PolicyDecided event")
      reject_if (summary_decision job.policy_summary != event.refs.policy_decision_id) (
          job_update_conflict "policy_summary decision_id must match event refs.policy_decision_id")

unfoldable pub validate_job_update_against :
    JobRecord → JobRecord → JobEvent → StoreResult (Unit {0})
unfolding ensure_immutable_job_field
validate_job_update_against existing job event = do
  ensure_same_repository "jobs" "job.repository_id" existing.repository_id job.repository_id
  ensure_immutable_job_field "schema_version" existing.schema_version job.schema_version
  ensure_immutable_job_field "created_at" existing.created_at job.created_at
  ensure_immutable_job_field "requester" existing.requester job.requester
  ensure_immutable_job_field "kind" existing.kind job.kind
  ensure_immutable_job_field "goal" existing.goal job.goal
  validate_job_lifecycle_update existing job event
  validate_job_cancellation_update existing job event
  validate_job_policy_summary_update existing job event
  reject_if (event.refs.job_id != some job.id)
      (invalid_reference "job_events" "job update event refs.job_id must identify job {}")
  reject_if (event.refs.repository_id != some job.repository_id) (
      invalid_reference "job_events"
        "job update event refs.repository_id must identify repository {}")

unfoldable pub validate_job_update : InMemoryInner → JobRecord → JobEvent → StoreResult (Unit {0})
validate_job_update inner job event = do
  existing ← ok_or (get inner.jobs job.id) (not_found "jobs" job.id)
  reject_if (job.latest_event_id != existing.latest_event_id)
      (conflict "jobs" "job update for {} is stale: expected latest_event_id {:?}, got {:?}")
  validate_job_update_against existing job event

unfoldable pub validate_sibling_event_ids_are_unique : JobEvent → JobEvent → StoreResult (Unit {0})
validate_sibling_event_ids_are_unique left right =
    reject_if (left.id == right.id) (duplicate_id "job_events" left.id)

unfoldable pub validate_two_stage_job_update_identity :
    JobRecord → JobEvent → JobRecord → JobEvent → StoreResult (Unit {0})
validate_two_stage_job_update_identity first_record first_event final_record final_event = do
  reject_if (first_record.id != final_record.id) (
      invalid_reference "jobs"
        "two-stage job update first_record {} does not match final_record {}")
  reject_if (first_event.refs.job_id != some first_record.id)
      (invalid_reference "job_events" "first_event.refs.job_id must identify job {}")
  reject_if (final_event.refs.job_id != some first_record.id)
      (invalid_reference "job_events" "final_event.refs.job_id must identify job {}")

unfoldable pub validate_initial_event_for_job : JobRecord → JobEvent → StoreResult (Unit {0})
validate_initial_event_for_job job event = do
  reject_if
      (event.subject.subject_type != EventSubjectType.job || event.subject.subject_id != job.id)
      (invalid_reference "job_events" "initial event subject must identify job {}")
  reject_if (event.refs.job_id != some job.id)
      (invalid_reference "job_events" "initial event refs.job_id must identify job {}")
  reject_if (event.refs.repository_id != some job.repository_id) (
      invalid_reference "job_events" "initial event refs.repository_id must identify repository {}")
