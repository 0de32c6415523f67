-- ===== src/Store/Calls/Ledger.antt =====
-- The ledger of job events through every operation of the store, crates/atelia-core/src/store.rs.
use atelia_secretary.Store.Calls.Frames.{
  audit-frame, result-frame, invocation-frame, release-frame, find_lock-frame, acquire-frame,
  migration-frame, lock-frame, policy-frame, repository-frame,
}
use atelia_secretary.Domain.Tool.{AuditRecord, ToolResult}
use atelia_secretary.Store.Calls.Induction.{run-keeps, CallKeeps}
use atelia_secretary.Store.Tools.{
  with_audit, with_result, validate_result_and_audit, record_tool_result_and_audit_draft,
}
use atelia_secretary.Store.Calls.{
  Call, repository_call, job_call, event_call, update_call, two_updates_call, policy_call,
  lock_call, migration_call, acquire_call, find_lock_call, release_call, invocation_call,
  result_call, audit_call, result_and_audit_call, run,
}
use atelia_secretary.Base.{
  refl, >>-eq-ok, List, Ensures-pure, ◌≡◌, get, Ensures-bind, Ensures-seq, Ensures-ok, arith, ok,
  nat_eq, string_eq,
}
use atelia_secretary.Domain.Job.{JobRecord}
use atelia_secretary.Domain.Event.{JobEvent}
use atelia_secretary.Store.State.{InMemoryInner, default_inner}
use atelia_secretary.Store.EventRefs.{
  validate_new_job_event, validate_new_job_event_with_pending_records,
}
use atelia_secretary.Store.Subjects.{Pending}
use atelia_secretary.Store.Mutate.{Host, Draft}
use atelia_secretary.Store.Mutate.Keeps.{DraftKeeps}
use atelia_secretary.Store.Ledger.{
  latest, with_job, append_event_locked, create_job_draft, append_job_event_draft,
  append_job_event_and_update_job_draft, append_job_events_and_update_job_draft,
}
use atelia_secretary.Store.Ledger.Dense.{
  HasDenseLedger, validate_new_job_event-fresh, with_event-HasDenseLedger_next,
  append_event_locked-HasDenseLedger, first_append-HasDenseLedger,
}

default_inner-HasDenseLedger : HasDenseLedger default_inner
unfolding get
default_inner-HasDenseLedger = record {
  ordered = refl;
  at_sequence = λ n pos le. absurd (omega arith);
  in_range = λ n id e. absurd (cc);
  held = λ id e p. absurd (cc);
}

abbrev DraftIsDense : (R : Type 0) → Draft R → Type 0
DraftIsDense R d = HasDenseLedger d.inner

module _ (host : Host) (inner : InMemoryInner) (h : HasDenseLedger inner) where
  -- A validated event is appended.
  appended-HasDenseLedger :
      (e : JobEvent) (pending : Pending) (r : InMemoryInner × JobEvent)
      → validate_new_job_event_with_pending_records host.parses_uuid inner e pending ≡ ok tt
      → append_event_locked inner e ≡ ok r
      → HasDenseLedger r.0
  appended-HasDenseLedger e pending r valid =
      Ensures-ok (λ s. HasDenseLedger s.0) _ r
        (append_event_locked-HasDenseLedger inner e h
          (validate_new_job_event-fresh _ inner e _ valid))

  create_job-HasDenseLedger :
      (j : JobRecord) (e : JobEvent) → DraftKeeps HasDenseLedger (create_job_draft host j e inner)
  unfolding create_job_draft with_job validate_new_job_event
  create_job-HasDenseLedger j e = Ensures-seq (DraftIsDense JobEvent) _ _ λ refs.
      Ensures-seq (DraftIsDense JobEvent) _ _ λ unique.
        Ensures-seq (DraftIsDense JobEvent) _ _ λ initial.
          Ensures-seq (DraftIsDense JobEvent) _ _ λ valid.
            Ensures-bind (DraftIsDense JobEvent) _ _ λ n p. Ensures-pure _ _ (
              with_event-HasDenseLedger_next (with_job inner (latest j e)) e h n
                (validate_new_job_event-fresh _ inner e _ valid) p)

  append_event-HasDenseLedger :
      (e : JobEvent) → DraftKeeps HasDenseLedger (append_job_event_draft host e inner)
  unfolding append_job_event_draft validate_new_job_event
  append_event-HasDenseLedger e = Ensures-seq (DraftIsDense JobEvent) _ _ λ valid.
      Ensures-bind (DraftIsDense JobEvent) _ _
        λ r p. Ensures-pure _ _ (appended-HasDenseLedger e _ r valid p)

  update-HasDenseLedger :
      (j : JobRecord) (e : JobEvent)
      → DraftKeeps HasDenseLedger (append_job_event_and_update_job_draft host j e inner)
  unfolding append_job_event_and_update_job_draft validate_new_job_event with_job
  update-HasDenseLedger j e = Ensures-seq (DraftIsDense JobEvent) _ _ λ checked.
      Ensures-seq (DraftIsDense JobEvent) _ _ λ valid.
        Ensures-bind (DraftIsDense JobEvent) _ _
          λ r p. Ensures-pure _ _ (appended-HasDenseLedger e _ r valid p)

  two_updates-HasDenseLedger :
      (j : JobRecord) (e : JobEvent) (k : JobRecord) (f : JobEvent)
      → DraftKeeps HasDenseLedger (append_job_events_and_update_job_draft host j e k f inner)
  unfolding append_job_events_and_update_job_draft validate_new_job_event with_job
  two_updates-HasDenseLedger j e k f =
      Ensures-seq (DraftIsDense (JobEvent × JobEvent)) _ _ λ distinct.
        Ensures-seq (DraftIsDense (JobEvent × JobEvent)) _ _ λ identity.
          Ensures-seq (DraftIsDense (JobEvent × JobEvent)) _ _ λ checked.
            Ensures-seq (DraftIsDense (JobEvent × JobEvent)) _ _ λ valid.
              Ensures-seq (DraftIsDense (JobEvent × JobEvent)) _ _ λ checked'.
                Ensures-seq (DraftIsDense (JobEvent × JobEvent)) _ _ λ valid'.
                  Ensures-bind (DraftIsDense (JobEvent × JobEvent)) _ _ λ capacity enough.
                    Ensures-bind (DraftIsDense (JobEvent × JobEvent)) _ _ λ r p.
                      Ensures-bind (DraftIsDense (JobEvent × JobEvent)) _ _ λ s q.
                        let (dense, fresh) =
                          first_append-HasDenseLedger inner e f h
                            (validate_new_job_event-fresh _ inner e _ valid)
                            (validate_new_job_event-fresh _ inner f _ valid') distinct r p in
                        Ensures-pure _ _ (
                          Ensures-ok (λ t. HasDenseLedger t.0) _ s
                            (append_event_locked-HasDenseLedger r.0 f dense fresh) q)

  result_and_audit-HasDenseLedger :
      (j : JobRecord) (r : ToolResult) (e : JobEvent) (a : AuditRecord) (f : JobEvent)
      → DraftKeeps HasDenseLedger (record_tool_result_and_audit_draft host j r e a f inner)
  unfolding record_tool_result_and_audit_draft validate_result_and_audit with_job
  result_and_audit-HasDenseLedger j r e a f = Ensures-seq _ _ _ λ checked.
      let (distinct, c1) = >>-eq-ok _ _ checked in
      let (update, c2) = >>-eq-ok _ _ c1 in
      let (update', c3) = >>-eq-ok _ _ c2 in
      let (result, c4) = >>-eq-ok _ _ c3 in
      let (audit, c5) = >>-eq-ok _ _ c4 in
      let (valid, c6) = >>-eq-ok _ _ c5 in
      let (valid', c7) = >>-eq-ok _ _ c6 in
      Ensures-bind _ _ _ λ first p. Ensures-bind _ _ _ λ second q.
        let (dense, fresh) =
          first_append-HasDenseLedger (with_result inner r) e f h
            (validate_new_job_event-fresh _ inner e _ valid)
            (validate_new_job_event-fresh _ inner f _ valid') distinct first p in
        Ensures-pure _ _ (
          Ensures-ok (λ t. HasDenseLedger t.0) _ second
            (append_event_locked-HasDenseLedger (with_audit (with_job first.0 (latest j e)) a) f
              dense fresh)
            q)

keeps-HasDenseLedger :
    (host : Host) (inner : InMemoryInner) (call : Call)
    → HasDenseLedger inner
    → CallKeeps HasDenseLedger host inner call
keeps-HasDenseLedger host inner (repository_call r) h =
    λ valid. repository-frame HasDenseLedger inner (λ m. h) r
keeps-HasDenseLedger host inner (job_call j e) h = create_job-HasDenseLedger host inner h j e
keeps-HasDenseLedger host inner (event_call e) h = append_event-HasDenseLedger host inner h e
keeps-HasDenseLedger host inner (update_call j e) h = update-HasDenseLedger host inner h j e
keeps-HasDenseLedger host inner (two_updates_call j e k f) h =
    two_updates-HasDenseLedger host inner h j e k f
keeps-HasDenseLedger host inner (policy_call d) h = policy-frame HasDenseLedger inner (λ m. h) d
keeps-HasDenseLedger host inner (lock_call l) h = lock-frame HasDenseLedger inner (λ m. h) l
keeps-HasDenseLedger host inner (migration_call r) h =
    λ valid. migration-frame HasDenseLedger inner (λ m. h) r
keeps-HasDenseLedger host inner (acquire_call id leader safe timeout at) h =
    acquire-frame HasDenseLedger inner (λ m. h) id leader safe timeout at
keeps-HasDenseLedger host inner (find_lock_call now) h =
    find_lock-frame HasDenseLedger inner (λ m. h) now
keeps-HasDenseLedger host inner (release_call id leader at) h =
    release-frame HasDenseLedger inner (λ m. h) id leader at
keeps-HasDenseLedger host inner (invocation_call r) h =
    invocation-frame HasDenseLedger inner (λ m. h) r
keeps-HasDenseLedger host inner (result_call r) h = result-frame HasDenseLedger inner (λ m. h) r
keeps-HasDenseLedger host inner (audit_call r) h = audit-frame HasDenseLedger inner (λ m. h) r
keeps-HasDenseLedger host inner (result_and_audit_call j r e a f) h =
    result_and_audit-HasDenseLedger host inner h j r e a f

-- After any sequence of calls from the empty store, successful or not, the numbers 1 to
-- `next_event_sequence` index exactly one event each, which carries that number and is held under
-- its own identifier, and every event that is held has its place in the index.
pub run-HasDenseLedger :
    (host : Host) (calls : List Call) → HasDenseLedger (run host default_inner calls)
run-HasDenseLedger host calls =
    run-keeps HasDenseLedger host (keeps-HasDenseLedger host) default_inner calls
      default_inner-HasDenseLedger
