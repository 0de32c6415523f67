-- ===== src/Store/Calls/Tools.antt =====
-- Tool results over a history, crates/atelia-core/src/store.rs.
use atelia_secretary.Store.Calls.Writes.{insert_record-insert}
use atelia_secretary.Store.Calls.Frames.{
  result_and_audit-frame, audit-frame, release-frame, find_lock-frame, acquire-frame,
  migration-frame, lock-frame, policy-frame, two_updates-frame, update-frame, event-frame,
  job-frame, repository-frame,
}
use atelia_secretary.Store.Mutate.Keeps.{DraftKeeps}
use atelia_secretary.Store.Calls.Induction.{run-keeps, CallKeeps}
use atelia_secretary.Domain.Event.{JobEvent}
use atelia_secretary.Domain.Ids.{ToolResultId, ToolInvocationId}
use atelia_secretary.Domain.Tool.{AuditRecord, ToolInvocation, ToolResult}
use atelia_secretary.Domain.Job.{JobRecord}
use atelia_secretary.Store.Tools.{
  with_result, create_tool_invocation_draft, validate_result_and_audit, validate_tool_result_refs,
  create_tool_result_draft,
}
use atelia_secretary.Store.Ledger.{with_job, with_event}
use atelia_secretary.Store.Mutate.{Host}
use atelia_secretary.Base.{
  inr, inl, any-values-get, Bool-cases, false, Ensures-pure, ok_or-some, values, reject_if-false,
  get-insert, ◌==◌, Ensures-bind, >>=-eq-ok, insert, >>-eq-ok, any, none, some, Ensures-seq, ok,
  List, Assoc, ◌≡◌, get, string_eq, arith,
}
use atelia_secretary.Store.Calls.{
  Call, repository_call, job_call, event_call, update_call, two_updates_call, policy_call,
  lock_call, migration_call, acquire_call, find_lock_call, release_call, invocation_call,
  result_call, audit_call, result_and_audit_call, run,
}
use atelia_secretary.Store.State.{default_inner, InMemoryInner}

-- Each result is stored under its own identifier and belongs to an invocation of the same tool
-- that the store holds, and no invocation has two results.
pub record AreResolved (invocations : Assoc ToolInvocationId ToolInvocation)
    (results : Assoc ToolResultId ToolResult) : Type 0 where
  pub resolved :
      (id : ToolResultId) (r : ToolResult)
      → get results id ≡ some r
      → (i : ToolInvocation) × (get invocations r.invocation_id ≡ some i) × (i.tool_id ≡ r.tool_id)
  pub own_id : (id : ToolResultId) (r : ToolResult) → get results id ≡ some r → r.id ≡ id
  pub single :
      (id id' : ToolResultId) (r r' : ToolResult)
      → get results id ≡ some r
      → get results id' ≡ some r'
      → r.invocation_id ≡ r'.invocation_id
      → id ≡ id'

abbrev pub HasResolvedResults : InMemoryInner → Type 0
HasResolvedResults inner = AreResolved inner.tool_invocations inner.tool_results

module _ (invocations : Assoc ToolInvocationId ToolInvocation)
    (results : Assoc ToolResultId ToolResult) (h : AreResolved invocations results) where
  insert_invocation-AreResolved :
      (i : ToolInvocation)
      → get invocations i.id ≡ none
      → AreResolved (insert invocations i.id i) results
  insert_invocation-AreResolved i absent = record {
    resolved = λ id r g.
        let (old, found, same) = h.resolved id r g in
        (old, ground (arith, get-insert invocations i.id r.invocation_id i), same);
    own_id = h.own_id;
    single = h.single;
  }

  module _ (r : ToolResult) (i : ToolInvocation)
      (invoked : get invocations r.invocation_id ≡ some i) (same_tool : i.tool_id ≡ r.tool_id)
      (first : any (λ existing. existing.invocation_id == r.invocation_id) (values results)
        ≡ false) where
    resolved_with :
        (id : ToolResultId) (a : ToolResult)
        → get (insert results r.id r) id ≡ some a
        → (i : ToolInvocation) × (get invocations a.invocation_id ≡ some i)
          × (i.tool_id ≡ a.tool_id)
    resolved_with id a g = elim (Bool-cases (r.id == id)) [
      | inl new ↦
          let e : r ≡ a = ground (arith, get-insert results r.id id r) in
          rw (← e) (i, invoked, same_tool)
      | inr old ↦ h.resolved id a (ground (arith, get-insert results r.id id r))
    ]

    not_answered :
        (id : ToolResultId) (other : ToolResult)
        → get results id ≡ some other
        → other.invocation_id ≡ r.invocation_id
        → ⊥
    not_answered id other g e = ground (
      arith,
      any-values-get (λ existing. existing.invocation_id == r.invocation_id) results id other,
    )

    own_id_with :
        (id : ToolResultId) (a : ToolResult) → get (insert results r.id r) id ≡ some a → a.id ≡ id
    own_id_with id a g = ground (arith, get-insert results r.id id r, h.own_id id a)

    single_with :
        (id id' : ToolResultId) (a b : ToolResult)
        → get (insert results r.id r) id ≡ some a
        → get (insert results r.id r) id' ≡ some b
        → a.invocation_id ≡ b.invocation_id
        → id ≡ id'
    single_with id id' a b g g' e = ground (
      arith,
      get-insert results r.id id r,
      get-insert results r.id id' r,
      not_answered id a,
      not_answered id' b,
      h.single id id' a b,
    )

    insert_result-AreResolved : AreResolved invocations (insert results r.id r)
    insert_result-AreResolved = record {
      resolved = resolved_with;
      own_id = own_id_with;
      single = single_with;
    }

module _ (inner : InMemoryInner) (h : HasResolvedResults inner) where
  -- A validated result keeps the results in order.
  validated-HasResolvedResults :
      (r : ToolResult)
      → validate_tool_result_refs inner r ≡ ok tt
      → HasResolvedResults (with_result inner r)
  unfolding validate_tool_result_refs
  validated-HasResolvedResults r valid =
      let (i, found, v1) = >>=-eq-ok _ _ valid in
      let (same, v2) = >>-eq-ok _ _ v1 in
      let e : i.tool_id ≡ r.tool_id = ground (arith, reject_if-false _ _ same) in
      insert_result-AreResolved inner.tool_invocations inner.tool_results h r i
        (ok_or-some _ _ i found) e (reject_if-false _ _ v2)

  result-HasResolvedResults :
      (r : ToolResult) → DraftKeeps HasResolvedResults (create_tool_result_draft r inner)
  unfolding create_tool_result_draft
  result-HasResolvedResults r = Ensures-seq _ _ _ λ valid. Ensures-bind _ _ _ λ m inserted.
      let same = (insert_record-insert inner.tool_results m r.id r _ inserted).1 in
      let all : AreResolved inner.tool_invocations m =
        rw same (validated-HasResolvedResults r valid) in
      Ensures-pure _ _ all

  invocation-HasResolvedResults :
      (i : ToolInvocation) → DraftKeeps HasResolvedResults (create_tool_invocation_draft i inner)
  unfolding create_tool_invocation_draft
  invocation-HasResolvedResults i = Ensures-seq _ _ _ λ valid. Ensures-bind _ _ _ λ m inserted.
      let (absent, same) = insert_record-insert inner.tool_invocations m i.id i _ inserted in
      let all : AreResolved m inner.tool_results =
        rw same
          (insert_invocation-AreResolved inner.tool_invocations inner.tool_results h i absent) in
      Ensures-pure _ _ all

  checked-HasResolvedResults :
      (host : Host) (j : JobRecord) (r : ToolResult) (e : JobEvent) (a : AuditRecord) (f : JobEvent)
      → validate_result_and_audit host j r e a f inner ≡ ok tt
      → HasResolvedResults (with_result inner r)
  unfolding validate_result_and_audit
  checked-HasResolvedResults host j r e a f checked =
      let (distinct, c1) = >>-eq-ok _ _ checked in
      let (update, c2) = >>-eq-ok _ _ c1 in
      let (update', c3) = >>-eq-ok _ _ c2 in validated-HasResolvedResults r (>>-eq-ok _ _ c3).0

keeps-HasResolvedResults :
    (host : Host) (inner : InMemoryInner) (call : Call)
    → HasResolvedResults inner
    → CallKeeps HasResolvedResults host inner call
unfolding with_event with_job
keeps-HasResolvedResults host inner (repository_call r) h =
    λ valid. repository-frame HasResolvedResults inner (λ m. h) r
keeps-HasResolvedResults host inner (job_call j e) h =
    job-frame HasResolvedResults host (λ s e n p. p) (λ s j p. p) inner h j e
keeps-HasResolvedResults host inner (event_call e) h =
    event-frame HasResolvedResults host (λ s e n p. p) (λ s j p. p) inner h e
keeps-HasResolvedResults host inner (update_call j e) h =
    update-frame HasResolvedResults host (λ s e n p. p) (λ s j p. p) inner h j e
keeps-HasResolvedResults host inner (two_updates_call j e k f) h =
    two_updates-frame HasResolvedResults host (λ s e n p. p) (λ s j p. p) inner h j e k f
keeps-HasResolvedResults host inner (policy_call d) h =
    policy-frame HasResolvedResults inner (λ m. h) d
keeps-HasResolvedResults host inner (lock_call l) h = lock-frame HasResolvedResults inner (λ m. h) l
keeps-HasResolvedResults host inner (migration_call r) h =
    λ valid. migration-frame HasResolvedResults inner (λ m. h) r
keeps-HasResolvedResults host inner (acquire_call id leader safe timeout at) h =
    acquire-frame HasResolvedResults inner (λ m. h) id leader safe timeout at
keeps-HasResolvedResults host inner (find_lock_call now) h =
    find_lock-frame HasResolvedResults inner (λ m. h) now
keeps-HasResolvedResults host inner (release_call id leader at) h =
    release-frame HasResolvedResults inner (λ m. h) id leader at
keeps-HasResolvedResults host inner (invocation_call r) h = invocation-HasResolvedResults inner h r
keeps-HasResolvedResults host inner (result_call r) h = result-HasResolvedResults inner h r
keeps-HasResolvedResults host inner (audit_call r) h =
    audit-frame HasResolvedResults inner (λ m. h) r
keeps-HasResolvedResults host inner (result_and_audit_call j r e a f) h =
    result_and_audit-frame HasResolvedResults host (λ s e n p. p) (λ s j p. p) inner h j r e a f
      (λ checked. checked-HasResolvedResults inner h host j r e a f checked) (λ s m p. p)

-- After any sequence of calls from the empty store, every tool result is stored under its own
-- identifier and belongs to an invocation of the same tool that the store holds, and no invocation
-- has two results.
pub run-HasResolvedResults :
    (host : Host) (calls : List Call) → HasResolvedResults (run host default_inner calls)
unfolding get
run-HasResolvedResults host calls =
    run-keeps HasResolvedResults host (keeps-HasResolvedResults host) default_inner calls (record {
      resolved = λ id r g. absurd (cc);
      own_id = λ id r g. absurd (cc);
      single = λ id id' r r' g. absurd (cc);
    })
