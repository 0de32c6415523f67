-- ===== src/Store/Publish.antt =====
-- The repository whose watchers an event is published to, crates/atelia-core/src/store.rs. The
-- broadcast channels themselves belong to tokio and are not modelled.
use atelia_secretary.Base.{
  string_eq, Option, none, some, List, [], ◌∷◌, get, ok, ◌>>=◌, ◌>>◌, ok_or,
}
use atelia_secretary.Domain.Ids.{
  RepositoryId, JobId, PolicyDecisionId, LockDecisionId, ToolInvocationId, ToolResultId,
  AuditRecordId,
}
use atelia_secretary.Domain.Event.{JobEvent, EventRefs}
use atelia_secretary.Store.State.{StoreResult, InMemoryInner, not_found, conflict}
use atelia_secretary.Store.Checks.{ensure_same_repository, get_record}
use atelia_secretary.Store.Subjects.{subject_repository_id, nothing_pending}

unfoldable pub ensure_owned_event_repository_consistency :
    Option RepositoryId → RepositoryId → StoreResult (Option RepositoryId)
unfolding ensure_same_repository
ensure_owned_event_repository_consistency none actual = ok (some actual)
ensure_owned_event_repository_consistency (some expected) actual = do
  ensure_same_repository "job_events" "{context}" expected actual
  ok (some expected)

-- The six branches of `derive_event_repository_from_refs`.
module _ (inner : InMemoryInner) where
  derive_from_job : Option JobId → Option RepositoryId → StoreResult (Option RepositoryId)
  derive_from_job none known = ok known
  derive_from_job (some job_id) known = do
    j ← ok_or (get inner.jobs job_id) (not_found "jobs" job_id)
    ensure_owned_event_repository_consistency known j.repository_id

  derive_from_policy :
      Option PolicyDecisionId → Option RepositoryId → StoreResult (Option RepositoryId)
  derive_from_policy none known = ok known
  derive_from_policy (some policy_decision_id) known = do
    d ←
        ok_or (get inner.policy_decisions policy_decision_id)
          (not_found "policy_decisions" policy_decision_id)
    ensure_owned_event_repository_consistency known d.repository_id

  derive_from_lock : Option LockDecisionId → Option RepositoryId → StoreResult (Option RepositoryId)
  derive_from_lock none known = ok known
  derive_from_lock (some lock_decision_id) known = do
    d ←
        ok_or (get inner.lock_decisions lock_decision_id)
          (not_found "lock_decisions" lock_decision_id)
    ensure_owned_event_repository_consistency known d.repository_id

  derive_from_invocation :
      Option ToolInvocationId → Option RepositoryId → StoreResult (Option RepositoryId)
  derive_from_invocation none known = ok known
  derive_from_invocation (some tool_invocation_id) known = do
    i ←
        ok_or (get inner.tool_invocations tool_invocation_id)
          (not_found "tool_invocations" tool_invocation_id)
    ensure_owned_event_repository_consistency known i.repository_id

  derive_from_result : Option ToolResultId → Option RepositoryId → StoreResult (Option RepositoryId)
  derive_from_result none known = ok known
  derive_from_result (some tool_result_id) known = do
    r ← ok_or (get inner.tool_results tool_result_id) (not_found "tool_results" tool_result_id)
    i ←
        ok_or (get inner.tool_invocations r.invocation_id)
          (conflict "tool_results" "tool_result {} references missing invocation {}")
    ensure_owned_event_repository_consistency known i.repository_id

  derive_from_audit : Option AuditRecordId → Option RepositoryId → StoreResult (Option RepositoryId)
  derive_from_audit none known = ok known
  derive_from_audit (some audit_record_id) known = do
    a ← ok_or (get inner.audit_records audit_record_id) (not_found "audit_records" audit_record_id)
    ensure_owned_event_repository_consistency known a.repository_id

  unfoldable pub derive_event_repository_from_refs :
      EventRefs → Option RepositoryId → StoreResult (Option RepositoryId)
  unfolding derive_from_job derive_from_policy derive_from_lock derive_from_invocation
      derive_from_result derive_from_audit
  derive_event_repository_from_refs refs known = do
    known ← derive_from_job refs.job_id known
    known ← derive_from_policy refs.policy_decision_id known
    known ← derive_from_lock refs.lock_decision_id known
    known ← derive_from_invocation refs.tool_invocation_id known
    known ← derive_from_result refs.tool_result_id known
    derive_from_audit refs.audit_record_id known

  derive_repository : JobEvent → Option RepositoryId → StoreResult (Option RepositoryId)
  derive_repository event (some repository_id) = ok (some repository_id)
  derive_repository event none = do
    subject ← subject_repository_id inner event nothing_pending
    derive_event_repository_from_refs event.refs (some subject)

  unfoldable pub event_repository_id : JobEvent → StoreResult (Option RepositoryId)
  unfolding derive_repository
  event_repository_id event = derive_repository event event.refs.repository_id

  known_repository : Option RepositoryId → StoreResult (Unit {0})
  known_repository none = ok tt
  known_repository (some repository_id) = do
    r ← get_record inner.repositories repository_id "repositories"
    ok tt

  unfoldable pub prepare_job_event_publish : List JobEvent → StoreResult (Unit {0})
  unfolding known_repository
  prepare_job_event_publish [] = ok tt
  prepare_job_event_publish (event ∷ events) = do
    repository_id ← event_repository_id event
    known_repository repository_id
    prepare_job_event_publish events
