-- ===== src/Store/State.antt =====
-- State and errors of the store, crates/atelia-core/src/store.rs. The reason of an error is the
-- source's message, or the template of its `format!` with nothing filled in.
use atelia_secretary.Base.{String, ℕ, [], Assoc, Result}
use atelia_secretary.Domain.Ids.{
  RepositoryId, JobId, JobEventId, PolicyDecisionId, LockDecisionId, ToolInvocationId, ToolResultId,
  AuditRecordId, SchemaMigrationId,
}
use atelia_secretary.Domain.Repository.{RepositoryRecord}
use atelia_secretary.Domain.Policy.{PolicyDecision}
use atelia_secretary.Domain.Job.{JobRecord}
use atelia_secretary.Domain.Lock.{LockDecision}
use atelia_secretary.Domain.Migration.{SchemaMigrationRecord}
use atelia_secretary.Domain.Tool.{ToolInvocation, ToolResult, AuditRecord}
use atelia_secretary.Domain.Event.{JobEvent}

pub data StoreError : Type 0 where
  not_found : (collection id : String) → StoreError
  duplicate_id : (collection id : String) → StoreError
  conflict : (collection reason : String) → StoreError
  invalid_reference : (collection reason : String) → StoreError
  invalid_cursor : (reason : String) → StoreError
  cursor_expired : (reason : String) → StoreError
  sequence_overflow : StoreError
  invalid_record : (collection reason : String) → StoreError

abbrev pub StoreResult {ℓ} : Type ℓ → Type ℓ
StoreResult A = Result StoreError A

-- The receipts of idempotent submissions and the registry of extensions are not modelled.
pub record InMemoryInner : Type 0 where
  pub repositories : Assoc RepositoryId RepositoryRecord
  pub jobs : Assoc JobId JobRecord
  pub job_events_by_id : Assoc JobEventId JobEvent
  pub job_events_by_sequence : Assoc ℕ JobEventId
  pub next_event_sequence : ℕ
  pub policy_decisions : Assoc PolicyDecisionId PolicyDecision
  pub lock_decisions : Assoc LockDecisionId LockDecision
  pub schema_migrations : Assoc SchemaMigrationId SchemaMigrationRecord
  pub tool_invocations : Assoc ToolInvocationId ToolInvocation
  pub tool_results : Assoc ToolResultId ToolResult
  pub audit_records : Assoc AuditRecordId AuditRecord

-- `InMemoryInner::default`
abbrev pub default_inner : InMemoryInner
default_inner = record {
  repositories = [];
  jobs = [];
  job_events_by_id = [];
  job_events_by_sequence = [];
  next_event_sequence = 0;
  policy_decisions = [];
  lock_decisions = [];
  schema_migrations = [];
  tool_invocations = [];
  tool_results = [];
  audit_records = [];
}
