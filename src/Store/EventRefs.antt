-- ===== src/Store/EventRefs.antt =====
-- How the store checks what an event refers to, crates/atelia-core/src/store.rs. The three values
-- that `validate_event_refs` fills in as it goes are the record `Lineage`.
use atelia_secretary.Base.{
  String, Bool, not, ◌&&◌, ◌||◌, Option, none, some, ◌==◌, ◌!=◌, get, contains_key, ok, err, ◌>>=◌,
  ◌>>◌, reject_if, ok_or, or_else, if◌then◌else◌, is_some, string_eq, option_eq,
}
use atelia_secretary.Domain.Ids.{
  RepositoryId, JobId, PolicyDecisionId, LockDecisionId, ToolInvocationId, ToolResultId,
  AuditRecordId,
}
use atelia_secretary.Domain.Job.{JobRecord}
use atelia_secretary.Domain.Tool.{ToolResult}
use atelia_secretary.Domain.Event.{
  JobEvent, EventSubject, EventSubjectType, repository, job, policy_decision, lock_decision,
  tool_invocation, tool_result, audit_record, subject_type_eq, has_valid_subject_id,
}
use atelia_secretary.Store.State.{
  StoreResult, InMemoryInner, not_found, duplicate_id, conflict, invalid_reference,
}
use atelia_secretary.Store.Checks.{ensure_same_repository, ensure_ref_exists, only_if}
use atelia_secretary.Store.Subjects.{
  Pending, nothing_pending, subject_repository_id, validate_event_subject,
}

-- What the references of an event imply about it so far.
pub record Lineage : Type 0 where
  pub event_repository_id : Option RepositoryId
  pub event_job_id : Option JobId
  pub event_policy_decision_id : Option PolicyDecisionId

unfoldable pub ensure_subject_ref_matches :
    EventSubject → EventSubjectType → String → StoreResult (Unit {0})
ensure_subject_ref_matches subject expected_type ref_id =
    reject_if (not (subject.subject_type != expected_type || subject.subject_id == ref_id)) (
      invalid_reference "job_events"
        "{context} {} does not match event.subject_id {} for subject_type {:?}")

-- `ensure_event_identity_consistency`, which the checks of the job and of the policy share.
unfoldable pub ensure_event_identity_consistency :
    Option String → String → StoreResult (Option String)
ensure_event_identity_consistency none actual = ok (some actual)
ensure_event_identity_consistency (some expected) actual =
    if expected == actual
    then ok (some expected)
    else err
        (invalid_reference "job_events" "{context} implies {field_name} {actual}, not {expected}")

unfoldable pub ensure_event_repository_consistency :
    Option RepositoryId → RepositoryId → StoreResult (Option RepositoryId)
unfolding ensure_same_repository
ensure_event_repository_consistency none actual = ok (some actual)
ensure_event_repository_consistency (some expected) actual = do
  ensure_same_repository "job_events" "{context}" expected actual
  ok (some expected)

unfoldable pub imply_repository : RepositoryId → Lineage → StoreResult Lineage
unfolding ensure_event_repository_consistency
imply_repository actual l = do
  implied ← ensure_event_repository_consistency l.event_repository_id actual
  ok (record l { event_repository_id = implied })

unfoldable pub imply_job : JobId → Lineage → StoreResult Lineage
unfolding ensure_event_identity_consistency
imply_job actual l = do
  implied ← ensure_event_identity_consistency l.event_job_id actual
  ok (record l { event_job_id = implied })

unfoldable pub imply_policy : PolicyDecisionId → Lineage → StoreResult Lineage
unfolding ensure_event_identity_consistency
imply_policy actual l = do
  implied ← ensure_event_identity_consistency l.event_policy_decision_id actual
  ok (record l { event_policy_decision_id = implied })

-- The six checks of `validate_event_refs`, one for each kind of reference.
module _ (inner : InMemoryInner) (event : JobEvent) (pending : Pending) where
  unfoldable pub check_repository_ref : Option RepositoryId → Lineage → StoreResult Lineage
  check_repository_ref none l = ok l
  check_repository_ref (some repository_id) l = do
    ensure_subject_ref_matches event.subject repository repository_id
    ensure_ref_exists (contains_key inner.repositories repository_id) "repositories" repository_id
    ok l

  unfoldable pub check_job_ref : Option JobId → Lineage → StoreResult Lineage
  check_job_ref none l = ok l
  check_job_ref (some job_id) l = do
    ensure_subject_ref_matches event.subject job job_id
    j ←
        ok_or (or_else (get inner.jobs job_id) (only_if (λ j. j.id == job_id) pending.pending_job))
          (not_found "jobs" job_id)
    l ← imply_repository j.repository_id l
    imply_job j.id l

  unfoldable pub check_policy_ref : Option PolicyDecisionId → Lineage → StoreResult Lineage
  check_policy_ref none l = ok l
  check_policy_ref (some policy_decision_id) l = do
    ensure_subject_ref_matches event.subject policy_decision policy_decision_id
    d ←
        ok_or (get inner.policy_decisions policy_decision_id)
          (not_found "policy_decisions" policy_decision_id)
    imply_repository d.repository_id l

  unfoldable pub check_lock_ref : Option LockDecisionId → Lineage → StoreResult Lineage
  check_lock_ref none l = ok l
  check_lock_ref (some lock_decision_id) l = do
    ensure_subject_ref_matches event.subject lock_decision lock_decision_id
    d ←
        ok_or (get inner.lock_decisions lock_decision_id)
          (not_found "lock_decisions" lock_decision_id)
    l ← imply_repository d.repository_id l
    imply_policy d.policy_decision_id l

  unfoldable pub check_invocation_ref : Option ToolInvocationId → Lineage → StoreResult Lineage
  check_invocation_ref none l = ok l
  check_invocation_ref (some tool_invocation_id) l = do
    ensure_subject_ref_matches event.subject tool_invocation tool_invocation_id
    i ←
        ok_or (get inner.tool_invocations tool_invocation_id)
          (not_found "tool_invocations" tool_invocation_id)
    l ← imply_repository i.repository_id l
    l ← imply_job i.job_id l
    imply_policy i.policy_decision_id l

  -- The result with this identifier, in the state or pending.
  unfoldable pub known_result : ToolResultId → StoreResult ToolResult
  known_result tool_result_id =
      ok_or
        (or_else (get inner.tool_results tool_result_id)
          (only_if (λ r. r.id == tool_result_id) pending.pending_tool_result))
        (not_found "tool_results" tool_result_id)

  unfoldable pub check_result_ref : Option ToolResultId → Lineage → StoreResult Lineage
  check_result_ref none l = ok l
  check_result_ref (some tool_result_id) l = do
    ensure_subject_ref_matches event.subject tool_result tool_result_id
    r ← known_result tool_result_id
    i ←
        ok_or (get inner.tool_invocations r.invocation_id)
          (conflict "tool_results" "tool_result {} references missing invocation {}")
    l ← imply_repository i.repository_id l
    reject_if
        (is_some event.refs.tool_invocation_id
          && event.refs.tool_invocation_id != some r.invocation_id)
        (invalid_reference "job_events"
          "job_event.refs.tool_result_id {} belongs to invocation_id {}, not {:?}")
    l ← imply_job i.job_id l
    imply_policy i.policy_decision_id l

  -- The result that an audited event names is of the audited invocation.
  result_of_invocation : ToolInvocationId → Option ToolResultId → StoreResult (Unit {0})
  result_of_invocation tool_invocation_id none = ok tt
  result_of_invocation tool_invocation_id (some tool_result_id) = do
    r ← known_result tool_result_id
    reject_if (r.invocation_id != tool_invocation_id) (
        invalid_reference "job_events"
          "job_event.refs.audit_record_id {} belongs to invocation_id {}, but tool_result_id {} belongs to invocation_id {}")

  check_audited_invocation : Option ToolInvocationId → Lineage → StoreResult Lineage
  unfolding result_of_invocation
  check_audited_invocation none l = ok l
  check_audited_invocation (some tool_invocation_id) l = do
    i ←
        ok_or (get inner.tool_invocations tool_invocation_id)
          (conflict "audit_records" "audit_record {} references missing invocation {}")
    reject_if
        (is_some event.refs.tool_invocation_id
          && event.refs.tool_invocation_id != some tool_invocation_id)
        (invalid_reference "job_events"
          "job_event.refs.audit_record_id {} belongs to invocation_id {}, not {:?}")
    l ← imply_job i.job_id l
    result_of_invocation tool_invocation_id event.refs.tool_result_id
    ok l

  unfoldable pub check_audit_ref : Option AuditRecordId → Lineage → StoreResult Lineage
  unfolding check_audited_invocation
  check_audit_ref none l = ok l
  check_audit_ref (some audit_record_id) l = do
    ensure_subject_ref_matches event.subject audit_record audit_record_id
    a ←
        ok_or
          (or_else (get inner.audit_records audit_record_id)
            (only_if (λ a. a.id == audit_record_id) pending.pending_audit_record))
          (not_found "audit_records" audit_record_id)
    l ← imply_repository a.repository_id l
    l ← imply_policy a.policy_decision_id l
    check_audited_invocation a.tool_invocation_id l

-- What `validate_event_refs` starts from.
unfoldable pub initial_lineage : JobEvent → RepositoryId → Lineage
initial_lineage event subject_repository_id = record {
  event_repository_id = or_else event.refs.repository_id (some subject_repository_id);
  event_job_id =
      if event.subject.subject_type == job
      then some event.subject.subject_id
      else event.refs.job_id;
  event_policy_decision_id =
      if event.subject.subject_type == policy_decision
      then some event.subject.subject_id
      else event.refs.policy_decision_id;
}

unfoldable pub validate_event_refs :
    InMemoryInner → JobEvent → Pending → RepositoryId → StoreResult (Unit {0})
validate_event_refs inner event pending subject_repository_id = do
  l ←
      check_repository_ref inner event pending event.refs.repository_id
        (initial_lineage event subject_repository_id)
  l ← check_job_ref inner event pending event.refs.job_id l
  l ← check_policy_ref inner event pending event.refs.policy_decision_id l
  l ← check_lock_ref inner event pending event.refs.lock_decision_id l
  l ← check_invocation_ref inner event pending event.refs.tool_invocation_id l
  l ← check_result_ref inner event pending event.refs.tool_result_id l
  l ← check_audit_ref inner event pending event.refs.audit_record_id l
  ok tt

unfoldable pub validate_new_job_event_with_pending_records :
    (String → Bool) → InMemoryInner → JobEvent → Pending → StoreResult (Unit {0})
validate_new_job_event_with_pending_records parses_uuid inner event pending = do
  reject_if (contains_key inner.job_events_by_id event.id) (duplicate_id "job_events" event.id)
  reject_if (not (has_valid_subject_id parses_uuid event.subject))
      (invalid_reference "job_events" "event.subject_id {} does not match subject_type {:?}")
  subject_repository_id ← validate_event_subject inner event pending
  validate_event_refs inner event pending subject_repository_id

unfoldable pub validate_new_job_event :
    (String → Bool) → InMemoryInner → JobEvent → Option JobRecord → StoreResult (Unit {0})
unfolding validate_new_job_event_with_pending_records
validate_new_job_event parses_uuid inner event pending_job =
    validate_new_job_event_with_pending_records parses_uuid inner event
      (record nothing_pending { pending_job = pending_job })
