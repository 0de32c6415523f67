-- ===== src/Runtime.antt =====
-- Events of the runtime and the cancellation of a job, crates/atelia-core/src/runtime.rs.
pub mod Truncation
pub mod Fitting
pub mod Cancel
pub mod Outcome
pub mod Cancelable
pub mod Tests
use atelia_secretary.Base.{
  option_eq, nat_eq, string_eq, String, ℕ, Bool, true, false, ◌||◌, Option, none, some, List, [],
  ◌∷◌, ◌==◌, ok, err, ◌>>=◌, ◌>>◌, Result, reject_if, map_err, not,
}
use atelia_secretary.Domain.Ids.{JobId, JobEventId}
use atelia_secretary.Domain.Time.{LedgerTimestamp}
use atelia_secretary.Domain.Job.{
  JobRecord, JobStatus, queued, running, canceled, requested, transition_status,
  JobStatusTransitionError, status_eq,
}
use atelia_secretary.Domain.Policy.{
  allowed, audited, needs_approval, blocked, PolicyDecision, PolicySummary, PolicyOutcome,
}
use atelia_secretary.Domain.Tool.{ToolInvocation, ToolResult, AuditRecord, ToolResultStatus}
use atelia_secretary.Domain.Event.{
  EventSubject, EventSubjectType, EventSeverity, JobEventKind, EventRefs, default_refs, JobEvent,
  warning, cancellation_requested, job_status_changed,
}
use atelia_secretary.Output.Budget.{ToolOutputRenderError}
use atelia_secretary.Store.State.{StoreError, StoreResult, InMemoryInner, conflict}
use atelia_secretary.Store.Checks.{get_record}
use atelia_secretary.Store.Mutate.{Host}
use atelia_secretary.Store.Ledger.{append_job_events_and_update_job, latest}

abbrev pub runtime_schema_version : ℕ
runtime_schema_version = 1

-- The errors that the modelled operations return; those of artifacts are left out.
pub data RuntimeError : Type 0 where
  store : StoreError → RuntimeError
  job_status_transition : JobStatusTransitionError → RuntimeError
  tool_output_render : ToolOutputRenderError → RuntimeError
  invalid_tool_request invalid_tool_result tool_output_too_large : String → RuntimeError

abbrev pub RuntimeResult {ℓ} : Type ℓ → Type ℓ
RuntimeResult A = Result RuntimeError A

-- The fresh identifier of an event and the time at which it is made.
pub record Stamp : Type 0 where
  pub id : JobEventId
  pub at : LedgerTimestamp

unfoldable pub job_event :
    Stamp → EventSubject → JobEventKind → EventSeverity → String → EventRefs → JobEvent
job_event stamp subject kind severity public_message refs = record {
  id = stamp.id;
  schema_version = runtime_schema_version;
  sequence_number = 0;
  created_at = stamp.at;
  subject = subject;
  kind = kind;
  severity = severity;
  public_message = public_message;
  refs = refs;
  redactions = [];
}

-- `EventSubject::job`
abbrev pub job_subject : JobId → EventSubject
job_subject id = record { subject_type = EventSubjectType.job; subject_id = id }

abbrev pub refs_for_job : JobRecord → EventRefs
refs_for_job job = record default_refs {
  repository_id = some job.repository_id;
  job_id = some job.id;
}

abbrev pub refs_for_policy : JobRecord → PolicyDecision → EventRefs
refs_for_policy job policy_decision = record (refs_for_job job) {
  policy_decision_id = some policy_decision.id;
}

abbrev pub refs_for_invocation : JobRecord → PolicyDecision → ToolInvocation → EventRefs
refs_for_invocation job policy_decision invocation = record (refs_for_policy job policy_decision) {
  tool_invocation_id = some invocation.id;
}

abbrev pub refs_for_result : JobRecord → PolicyDecision → ToolInvocation → ToolResult → EventRefs
refs_for_result job policy_decision invocation result =
    record (refs_for_invocation job policy_decision invocation) {
      tool_result_id = some result.id;
      content_type = some "application/json";
    }

abbrev pub refs_for_audit :
    JobRecord → PolicyDecision → ToolInvocation → ToolResult → AuditRecord → EventRefs
refs_for_audit job policy_decision invocation result audit_record =
    record (refs_for_result job policy_decision invocation result) {
      audit_record_id = some audit_record.id;
    }

unfoldable pub policy_event_severity : PolicyOutcome → EventSeverity
policy_event_severity allowed = EventSeverity.info
policy_event_severity audited = EventSeverity.info
policy_event_severity needs_approval = warning
policy_event_severity blocked = EventSeverity.error

unfoldable pub tool_result_event_severity : ToolResultStatus → EventSeverity
tool_result_event_severity ToolResultStatus.succeeded = EventSeverity.info
tool_result_event_severity _ = EventSeverity.error

abbrev pub policy_summary : PolicyDecision → PolicySummary
policy_summary policy_decision = record {
  decision_id = some policy_decision.id;
  outcome = policy_decision.outcome;
  risk_tier = policy_decision.risk_tier;
  reason_code = policy_decision.reason_code;
}

unfoldable pub validate_runtime_tool_result : ToolInvocation → ToolResult → RuntimeResult (Unit {0})
validate_runtime_tool_result invocation result = do
  reject_if (not (result.invocation_id == invocation.id))
      (invalid_tool_result "tool result invocation_id {} does not match active invocation {}")
  reject_if (not (result.tool_id == invocation.tool_id))
      (invalid_tool_result "tool result tool_id {} does not match active invocation tool_id {}")

pub record CancelJobReceipt : Type 0 where
  pub job : JobRecord
  pub events : List JobEvent

-- What `cancel_job` asks the store for: the job with the cancellation requested, and canceled, each
-- with its event.
pub record Cancellation : Type 0 where
  pub requested_job : JobRecord
  pub cancel_event : JobEvent
  pub canceled_job : JobRecord
  pub status_event : JobEvent

module _ (cancel status : Stamp) (at : LedgerTimestamp) (reason : String) where
  abbrev pub cancellation_requested_job : JobRecord → JobRecord
  cancellation_requested_job job = record job { cancellation_state = requested }

  unfoldable pub cancel_event_of : JobRecord → JobEvent
  cancel_event_of job =
      job_event cancel (job_subject job.id) cancellation_requested warning reason (refs_for_job job)

  unfoldable pub status_event_of : JobStatus → JobRecord → JobEvent
  status_event_of previous_status job =
      job_event status (job_subject job.id) (job_status_changed previous_status canceled) warning
        "job cancelled" (refs_for_job job)

  -- The part of `cancel_job` before it changes the store.
  unfoldable pub plan_cancellation : InMemoryInner → JobId → RuntimeResult Cancellation
  unfolding cancel_event_of status_event_of
  plan_cancellation inner id = do
    job ← map_err store (get_record inner.jobs id "jobs")
    reject_if (not (job.status == queued || job.status == running))
        (store (conflict "jobs" "job {} cannot be cancelled in state {:?}"))
    let first_job = cancellation_requested_job job
    let first_event = cancel_event_of first_job
    final_job ←
        map_err job_status_transition (transition_status (latest first_job first_event) canceled at)
    ok (record {
      requested_job = first_job;
      cancel_event = first_event;
      canceled_job = final_job;
      status_event = status_event_of job.status final_job;
    })

  abbrev pub receipt : JobRecord → JobEvent × JobEvent → CancelJobReceipt
  receipt job events = record { job = latest job events.1; events = events.0 ∷ events.1 ∷ [] }

  abbrev pub commit_cancellation :
      Host
      → InMemoryInner
      → RuntimeResult Cancellation
      → RuntimeResult CancelJobReceipt × InMemoryInner
  commit_cancellation host inner (err e) = (err e, inner)
  commit_cancellation host inner (ok plan) =
      let r =
        append_job_events_and_update_job host plan.requested_job plan.cancel_event plan.canceled_job
          plan.status_event inner in
      (do events ← map_err store r.0; ok (receipt plan.canceled_job events), r.1)

  unfoldable pub cancel_job :
      Host → JobId → InMemoryInner → RuntimeResult CancelJobReceipt × InMemoryInner
  unfolding plan_cancellation
  cancel_job host id inner = commit_cancellation host inner (plan_cancellation inner id)
