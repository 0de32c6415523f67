-- ===== src/Domain/Event.antt =====
-- Job events, crates/atelia-core/src/domain.rs.
use atelia_secretary.Base.{String, ℕ, Bool, Option, none, List, [], Eq}
use atelia_secretary.Domain.Time.{LedgerTimestamp}
use atelia_secretary.Domain.Ids.{
  RepositoryId, JobId, JobEventId, PolicyDecisionId, LockDecisionId, ToolInvocationId, ToolResultId,
  AuditRecordId, try_from_string_is_ok,
}
use atelia_secretary.Domain.Repository.{RedactionMarker}
use atelia_secretary.Domain.Policy.{PolicyOutcome, OutputRef, ArtifactRef}
use atelia_secretary.Domain.Job.{JobStatus}
use atelia_secretary.Domain.Tool.{ToolResultStatus}

pub data EventSubjectType : Type 0 where
  repository job policy_decision lock_decision tool_invocation tool_result audit_record :
      EventSubjectType

unfoldable pub EventSubjectType-discrete : Discrete EventSubjectType
EventSubjectType-discrete = hlevel

instance abbrev pub subject_type_eq : Eq EventSubjectType
subject_type_eq = record { dec = EventSubjectType-discrete }

pub record EventSubject : Type 0 where
  pub subject_type : EventSubjectType
  pub subject_id : String

-- The prefix of the identifiers of a kind of subject.
abbrev pub id_prefix : EventSubjectType → String
id_prefix repository = "repo_"
id_prefix job = "job_"
id_prefix policy_decision = "pol_"
id_prefix lock_decision = "lock_"
id_prefix tool_invocation = "tool_"
id_prefix tool_result = "res_"
id_prefix audit_record = "aud_"

unfoldable pub has_valid_subject_id : (String → Bool) → EventSubject → Bool
unfolding try_from_string_is_ok
has_valid_subject_id parses_uuid subject =
    try_from_string_is_ok parses_uuid (id_prefix subject.subject_type) subject.subject_id

pub data EventSeverity : Type 0 where
  debug info warning error : EventSeverity

pub data JobEventKind : Type 0 where
  job_submitted : JobEventKind
  job_status_changed : (from to : JobStatus) → JobEventKind
  policy_decided : PolicyOutcome → JobEventKind
  lock_held lock_released lock_reclaimed : JobEventKind
  tool_invoked : String → JobEventKind
  tool_result_recorded : ToolResultStatus → JobEventKind
  audit_recorded cancellation_requested recovery_action_recorded message : JobEventKind

pub record EventRefs : Type 0 where
  pub repository_id : Option RepositoryId
  pub job_id : Option JobId
  pub policy_decision_id : Option PolicyDecisionId
  pub lock_decision_id : Option LockDecisionId
  pub tool_invocation_id : Option ToolInvocationId
  pub tool_result_id : Option ToolResultId
  pub content_type : Option String
  pub audit_record_id : Option AuditRecordId
  pub output_refs : List OutputRef
  pub artifact_refs : List ArtifactRef

abbrev pub default_refs : EventRefs
default_refs = record {
  repository_id = none;
  job_id = none;
  policy_decision_id = none;
  lock_decision_id = none;
  tool_invocation_id = none;
  tool_result_id = none;
  content_type = none;
  audit_record_id = none;
  output_refs = [];
  artifact_refs = [];
}

pub record JobEvent : Type 0 where
  pub id : JobEventId
  pub schema_version : ℕ
  pub sequence_number : ℕ
  pub created_at : LedgerTimestamp
  pub subject : EventSubject
  pub kind : JobEventKind
  pub severity : EventSeverity
  pub public_message : String
  pub refs : EventRefs
  pub redactions : List RedactionMarker
