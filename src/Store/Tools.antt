-- ===== src/Store/Tools.antt =====
-- Tool invocations, tool results and audit records, crates/atelia-core/src/store.rs.
use atelia_secretary.Base.{
  not, Option, none, some, [], ◌∷◌, ◌==◌, ◌!=◌, get, insert, values, any, contains_key, ok, ◌>>=◌,
  ◌>>◌, reject_if, ok_or, string_eq,
}
use atelia_secretary.Domain.Ids.{ToolInvocationId}
use atelia_secretary.Domain.Job.{JobRecord}
use atelia_secretary.Domain.Tool.{ToolInvocation, ToolResult, AuditRecord}
use atelia_secretary.Domain.Event.{JobEvent}
use atelia_secretary.Store.State.{
  StoreResult, InMemoryInner, not_found, conflict, invalid_reference,
}
use atelia_secretary.Store.Checks.{
  ensure_same_repository, ensure_ref_exists, ensure_ref_absent, ensure_event_sequence_capacity,
  insert_record,
}
use atelia_secretary.Store.JobUpdate.{validate_job_update, validate_sibling_event_ids_are_unique}
use atelia_secretary.Store.Subjects.{nothing_pending}
use atelia_secretary.Store.EventRefs.{validate_new_job_event_with_pending_records}
use atelia_secretary.Store.Mutate.{Host, Draft, mutate, mutate_with_published_events}
use atelia_secretary.Store.Ledger.{append_event_locked, with_job, latest}

unfoldable pub validate_tool_invocation_refs :
    InMemoryInner → ToolInvocation → StoreResult (Unit {0})
validate_tool_invocation_refs inner r = do
  j ← ok_or (get inner.jobs r.job_id) (not_found "jobs" r.job_id)
  ensure_ref_exists (contains_key inner.repositories r.repository_id) "repositories" r.repository_id
  ensure_same_repository "tool_invocations" "tool_invocation.job_id" r.repository_id j.repository_id
  d ←
      ok_or (get inner.policy_decisions r.policy_decision_id)
        (not_found "policy_decisions" r.policy_decision_id)
  ensure_same_repository "tool_invocations" "tool_invocation.policy_decision_id" r.repository_id
      d.repository_id

unfoldable pub validate_tool_result_refs : InMemoryInner → ToolResult → StoreResult (Unit {0})
validate_tool_result_refs inner r = do
  invocation ←
      ok_or (get inner.tool_invocations r.invocation_id)
        (not_found "tool_invocations" r.invocation_id)
  reject_if (invocation.tool_id != r.tool_id) (
      invalid_reference "tool_results"
        "tool_result.tool_id {} does not match invocation tool_id {}")
  reject_if
      (any (λ existing. existing.invocation_id == r.invocation_id) (values inner.tool_results))
      (conflict "tool_results" "tool_result already exists for invocation {}")

-- The result that the same operation records is of the audited invocation.
pending_of_invocation : ToolInvocationId → Option ToolResult → StoreResult (Unit {0})
pending_of_invocation tool_invocation_id none = ok tt
pending_of_invocation tool_invocation_id (some r) =
    reject_if (r.invocation_id != tool_invocation_id) (
      invalid_reference "audit_records"
        "pending tool_result {} belongs to invocation_id {}, not {}")

audited_invocation :
    InMemoryInner
    → AuditRecord
    → Option ToolInvocationId
    → Option ToolResult
    → StoreResult (Unit {0})
unfolding pending_of_invocation
audited_invocation inner r none pending = ok tt
audited_invocation inner r (some tool_invocation_id) pending = do
  i ←
      ok_or (get inner.tool_invocations tool_invocation_id)
        (not_found "tool_invocations" tool_invocation_id)
  ensure_same_repository "audit_records" "audit_record.tool_invocation_id" r.repository_id
      i.repository_id
  reject_if (i.policy_decision_id != r.policy_decision_id) (
      invalid_reference "audit_records"
        "audit_record.tool_invocation_id {} belongs to policy_decision_id {}, not {}")
  pending_of_invocation tool_invocation_id pending

unfoldable pub validate_audit_record_refs_with_pending_tool_result :
    InMemoryInner → AuditRecord → Option ToolResult → StoreResult (Unit {0})
unfolding audited_invocation
validate_audit_record_refs_with_pending_tool_result inner r pending = do
  ensure_ref_exists (contains_key inner.repositories r.repository_id) "repositories" r.repository_id
  d ←
      ok_or (get inner.policy_decisions r.policy_decision_id)
        (not_found "policy_decisions" r.policy_decision_id)
  ensure_same_repository "audit_records" "audit_record.policy_decision_id" r.repository_id
      d.repository_id
  audited_invocation inner r r.tool_invocation_id pending

unfoldable pub create_tool_invocation_draft :
    ToolInvocation → InMemoryInner → StoreResult (Draft (Unit {0}))
create_tool_invocation_draft r inner = do
  validate_tool_invocation_refs inner r
  tool_invocations ← insert_record inner.tool_invocations r.id r "tool_invocations"
  ok (record {
    inner = record inner { tool_invocations = tool_invocations };
    result = tt;
    events = [];
  })

unfoldable pub create_tool_result_draft :
    ToolResult → InMemoryInner → StoreResult (Draft (Unit {0}))
create_tool_result_draft r inner = do
  validate_tool_result_refs inner r
  tool_results ← insert_record inner.tool_results r.id r "tool_results"
  ok (record { inner = record inner { tool_results = tool_results }; result = tt; events = [] })

unfoldable pub create_audit_record_draft :
    AuditRecord → InMemoryInner → StoreResult (Draft (Unit {0}))
create_audit_record_draft r inner = do
  validate_audit_record_refs_with_pending_tool_result inner r none
  audit_records ← insert_record inner.audit_records r.id r "audit_records"
  ok (record { inner = record inner { audit_records = audit_records }; result = tt; events = [] })

abbrev pub with_result : InMemoryInner → ToolResult → InMemoryInner
with_result inner r = record inner { tool_results = insert inner.tool_results r.id r }

abbrev pub with_audit : InMemoryInner → AuditRecord → InMemoryInner
with_audit inner r = record inner { audit_records = insert inner.audit_records r.id r }

module _ (host : Host) where
  -- The tests of `record_tool_result_and_audit_with_events`, before the state changes.
  unfoldable pub validate_result_and_audit :
      JobRecord
      → ToolResult
      → JobEvent
      → AuditRecord
      → JobEvent
      → InMemoryInner
      → StoreResult (Unit {0})
  validate_result_and_audit job tool_result tool_result_event audit_record audit_event inner = do
    validate_sibling_event_ids_are_unique tool_result_event audit_event
    validate_job_update inner job tool_result_event
    validate_job_update inner job audit_event
    validate_tool_result_refs inner tool_result
    validate_audit_record_refs_with_pending_tool_result inner audit_record (some tool_result)
    validate_new_job_event_with_pending_records host.parses_uuid inner tool_result_event
        (record nothing_pending { pending_tool_result = some tool_result })
    validate_new_job_event_with_pending_records host.parses_uuid inner audit_event
        (record nothing_pending {
          pending_tool_result = some tool_result;
          pending_audit_record = some audit_record;
        })
    ensure_ref_absent (not (contains_key inner.tool_results tool_result.id)) "tool_results"
        tool_result.id
    ensure_ref_absent (not (contains_key inner.audit_records audit_record.id)) "audit_records"
        audit_record.id
    capacity ← ensure_event_sequence_capacity inner 2
    ok tt

  -- The two `insert_record` calls cannot fail here: their tests have been made above.
  unfoldable pub record_tool_result_and_audit_draft :
      JobRecord
      → ToolResult
      → JobEvent
      → AuditRecord
      → JobEvent
      → InMemoryInner
      → StoreResult (Draft (JobEvent × JobEvent))
  record_tool_result_and_audit_draft job tool_result tool_result_event audit_record audit_event
        inner =
      do
        validate_result_and_audit job tool_result tool_result_event audit_record audit_event inner
        first ← append_event_locked (with_result inner tool_result) tool_result_event
        let recorded = with_job first.0 (latest job tool_result_event)
        second ← append_event_locked (with_audit recorded audit_record) audit_event
        ok (record {
          inner = with_job second.0 (latest job audit_event);
          result = (first.1, second.1);
          events = first.1 ∷ second.1 ∷ [];
        })

  unfoldable pub create_tool_invocation :
      ToolInvocation → InMemoryInner → StoreResult (Unit {0}) × InMemoryInner
  create_tool_invocation r = mutate host (create_tool_invocation_draft r)

  unfoldable pub create_tool_result :
      ToolResult → InMemoryInner → StoreResult (Unit {0}) × InMemoryInner
  create_tool_result r = mutate host (create_tool_result_draft r)

  unfoldable pub create_audit_record :
      AuditRecord → InMemoryInner → StoreResult (Unit {0}) × InMemoryInner
  create_audit_record r = mutate host (create_audit_record_draft r)

  unfoldable pub record_tool_result_and_audit_with_events :
      JobRecord
      → ToolResult
      → JobEvent
      → AuditRecord
      → JobEvent
      → InMemoryInner
      → StoreResult (JobEvent × JobEvent) × InMemoryInner
  record_tool_result_and_audit_with_events job tool_result tool_result_event audit_record
        audit_event =
      mutate_with_published_events host (
        record_tool_result_and_audit_draft job tool_result tool_result_event audit_record
          audit_event)
