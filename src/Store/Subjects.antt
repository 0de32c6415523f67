-- ===== src/Store/Subjects.antt =====
-- The subject of an event and its repository, crates/atelia-core/src/store.rs.
use atelia_secretary.Base.{
  String, Option, none, some, ◌==◌, get, values, keys, find, ok, ◌>>=◌, ◌>>◌, ok_or, or_else,
  string_eq, option_eq,
}
use atelia_secretary.Domain.Ids.{RepositoryId}
use atelia_secretary.Domain.Job.{JobRecord}
use atelia_secretary.Domain.Tool.{ToolResult, AuditRecord}
use atelia_secretary.Domain.Event.{
  JobEvent, EventSubjectType, repository, job, policy_decision, lock_decision, tool_invocation,
  tool_result, audit_record, subject_type_eq,
}
use atelia_secretary.Store.State.{StoreResult, InMemoryInner, not_found, conflict}
use atelia_secretary.Store.Checks.{ensure_same_repository, only_if}

-- The records of the same operation that are not in the state yet.
pub record Pending : Type 0 where
  pub pending_job : Option JobRecord
  pub pending_tool_result : Option ToolResult
  pub pending_audit_record : Option AuditRecord

abbrev pub nothing_pending : Pending
nothing_pending = record {
  pending_job = none;
  pending_tool_result = none;
  pending_audit_record = none;
}

-- The arm of `subject_repository_id` for each type of subject.
unfoldable pub repository_of_subject :
    InMemoryInner → EventSubjectType → String → Pending → StoreResult RepositoryId
repository_of_subject inner repository subject_id pending =
    ok_or (find (λ id. id == subject_id) (keys inner.repositories))
      (not_found "repositories" subject_id)
repository_of_subject inner job subject_id pending = do
  j ←
      ok_or
        (or_else (find (λ j. j.id == subject_id) (values inner.jobs))
          (only_if (λ j. j.id == subject_id) pending.pending_job))
        (not_found "jobs" subject_id)
  ok j.repository_id
repository_of_subject inner policy_decision subject_id pending = do
  d ←
      ok_or (find (λ d. d.id == subject_id) (values inner.policy_decisions))
        (not_found "policy_decisions" subject_id)
  ok d.repository_id
repository_of_subject inner lock_decision subject_id pending = do
  d ←
      ok_or (find (λ d. d.id == subject_id) (values inner.lock_decisions))
        (not_found "lock_decisions" subject_id)
  ok d.repository_id
repository_of_subject inner tool_invocation subject_id pending = do
  i ←
      ok_or (find (λ i. i.id == subject_id) (values inner.tool_invocations))
        (not_found "tool_invocations" subject_id)
  ok i.repository_id
repository_of_subject inner tool_result subject_id pending = do
  r ←
      ok_or
        (or_else (find (λ r. r.id == subject_id) (values inner.tool_results))
          (only_if (λ r. r.id == subject_id) pending.pending_tool_result))
        (not_found "tool_results" subject_id)
  i ←
      ok_or (get inner.tool_invocations r.invocation_id)
        (conflict "tool_results" "tool_result {} references missing invocation {}")
  ok i.repository_id
repository_of_subject inner audit_record subject_id pending = do
  a ←
      ok_or
        (or_else (find (λ a. a.id == subject_id) (values inner.audit_records))
          (only_if (λ a. a.id == subject_id) pending.pending_audit_record))
        (not_found "audit_records" subject_id)
  ok a.repository_id

unfoldable pub subject_repository_id : InMemoryInner → JobEvent → Pending → StoreResult RepositoryId
unfolding repository_of_subject
subject_repository_id inner event pending =
    repository_of_subject inner event.subject.subject_type event.subject.subject_id pending

same_repository_as_ref : Option RepositoryId → RepositoryId → StoreResult (Unit {0})
same_repository_as_ref none subject_repository_id = ok tt
same_repository_as_ref (some ref_repository_id) subject_repository_id =
    ensure_same_repository "job_events" "job_event.subject_id" ref_repository_id
      subject_repository_id

unfoldable pub validate_event_subject :
    InMemoryInner → JobEvent → Pending → StoreResult RepositoryId
unfolding same_repository_as_ref
validate_event_subject inner event pending = do
  repository_id ← subject_repository_id inner event pending
  same_repository_as_ref event.refs.repository_id repository_id
  ok repository_id
