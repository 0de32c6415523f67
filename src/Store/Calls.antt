-- ===== src/Store/Calls.antt =====
-- The mutating operations of the store as one type of calls, and histories of calls. The operation
-- takes the store's lock for its whole length, so a history is an interleaving of its clients.
pub mod Induction
pub mod Frames
pub mod Ledger
pub mod Locks
pub mod Acquire
pub mod Tests
pub mod Tools
pub mod Writes
pub mod Repositories
pub mod Replay
pub mod Migrations
pub mod Jobs
use atelia_secretary.Base.{String, ℕ, Bool, List, [], ◌∷◌}
use atelia_secretary.Domain.Time.{LedgerTimestamp}
use atelia_secretary.Domain.Ids.{SchemaMigrationId}
use atelia_secretary.Domain.Repository.{RepositoryRecord}
use atelia_secretary.Domain.Policy.{PolicyDecision}
use atelia_secretary.Domain.Job.{JobRecord}
use atelia_secretary.Domain.Lock.{LockDecision}
use atelia_secretary.Domain.Migration.{SchemaMigrationRecord}
use atelia_secretary.Domain.Tool.{ToolInvocation, ToolResult, AuditRecord}
use atelia_secretary.Domain.Event.{JobEvent}
use atelia_secretary.Store.State.{InMemoryInner}
use atelia_secretary.Store.Mutate.{Host}
use atelia_secretary.Store.Ledger.{
  create_job_with_initial_event, append_job_event, append_job_event_and_update_job,
  append_job_events_and_update_job,
}
use atelia_secretary.Store.Repositories.{create_repository, create_policy_decision}
use atelia_secretary.Store.Locks.{create_lock_decision}
use atelia_secretary.Store.Migrations.{
  create_schema_migration, acquire_schema_migration_lock, get_schema_migration_lock,
  release_schema_migration_lock,
}
use atelia_secretary.Store.Tools.{
  create_tool_invocation, create_tool_result, create_audit_record,
  record_tool_result_and_audit_with_events,
}

pub data Call : Type 0 where
  repository_call : RepositoryRecord → Call
  job_call : JobRecord → JobEvent → Call
  event_call : JobEvent → Call
  update_call : JobRecord → JobEvent → Call
  two_updates_call : JobRecord → JobEvent → JobRecord → JobEvent → Call
  policy_call : PolicyDecision → Call
  lock_call : LockDecision → Call
  migration_call : SchemaMigrationRecord → Call
  acquire_call : SchemaMigrationId → String → Bool → ℕ → LedgerTimestamp → Call
  find_lock_call : LedgerTimestamp → Call
  release_call : SchemaMigrationId → String → LedgerTimestamp → Call
  invocation_call : ToolInvocation → Call
  result_call : ToolResult → Call
  audit_call : AuditRecord → Call
  result_and_audit_call : JobRecord → ToolResult → JobEvent → AuditRecord → JobEvent → Call

module _ (host : Host) where
  -- The state after a call, whether it succeeded or not.
  unfoldable pub step : InMemoryInner → Call → InMemoryInner
  step inner (repository_call r) = (create_repository host r inner).1
  step inner (job_call j e) = (create_job_with_initial_event host j e inner).1
  step inner (event_call e) = (append_job_event host e inner).1
  step inner (update_call j e) = (append_job_event_and_update_job host j e inner).1
  step inner (two_updates_call j e k f) = (append_job_events_and_update_job host j e k f inner).1
  step inner (policy_call d) = (create_policy_decision host d inner).1
  step inner (lock_call l) = (create_lock_decision host l inner).1
  step inner (migration_call r) = (create_schema_migration host r inner).1
  step inner (acquire_call id leader safe timeout at) =
      (acquire_schema_migration_lock host id leader safe timeout at inner).1
  step inner (find_lock_call now) = (get_schema_migration_lock host now inner).1
  step inner (release_call id leader at) = (release_schema_migration_lock host id leader at inner).1
  step inner (invocation_call r) = (create_tool_invocation host r inner).1
  step inner (result_call r) = (create_tool_result host r inner).1
  step inner (audit_call r) = (create_audit_record host r inner).1
  step inner (result_and_audit_call j r e a f) =
      (record_tool_result_and_audit_with_events host j r e a f inner).1

  unfoldable pub run : InMemoryInner → List Call → InMemoryInner
  run inner [] = inner
  run inner (call ∷ calls) = run (step inner call) calls
