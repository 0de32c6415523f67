-- ===== src/Store/Calls/Jobs.antt =====
-- A job over a history, crates/atelia-core/src/store.rs.
use atelia_secretary.Domain.Tool.{AuditRecord, ToolResult}
use atelia_secretary.Store.Tools.{
  with_result, with_audit, validate_result_and_audit, record_tool_result_and_audit_draft,
}
use atelia_secretary.Store.Ledger.Dense.{append_event_locked-with_event}
use atelia_secretary.Store.JobUpdate.Evolution.{
  Follows-relabel, Follows-trans, validate_job_update_against-Follows, Follows-refl, Follows,
}
use atelia_secretary.Store.Calls.Frames.{
  audit-frame, result-frame, invocation-frame, release-frame, find_lock-frame, acquire-frame,
  migration-frame, lock-frame, policy-frame, repository-frame,
}
use atelia_secretary.Store.Mutate.Keeps.{DraftKeeps}
use atelia_secretary.Store.Calls.Induction.{run-keeps, CallKeeps}
use atelia_secretary.Store.JobUpdate.{validate_two_stage_job_update_identity, validate_job_update}
use atelia_secretary.Domain.Event.{JobEvent}
use atelia_secretary.Domain.Job.{JobRecord}
use atelia_secretary.Store.Ledger.{
  append_job_events_and_update_job_draft, latest, append_job_event_and_update_job_draft,
  append_job_event_draft, append_event_locked, with_job, create_job_draft, with_event,
}
use atelia_secretary.Domain.Ids.{JobId}
use atelia_secretary.Store.Mutate.{Host}
use atelia_secretary.Base.{
  get-insert_ordered_self, ◌∙◌, string_ord, refl, option_eq, nat_eq, inr, Ensures-pure, >>-eq-ok,
  get-insert_ordered, Ensures-bind, inl, reject_if-false, ok_or-some, ◌==◌, contains_key-false,
  >>=-eq-ok, Ensures-seq, Bool-cases, ok, some, List, ◌≡◌, get, string_eq, arith,
}
use atelia_secretary.Store.Calls.{
  Call, repository_call, job_call, event_call, update_call, two_updates_call, policy_call,
  lock_call, migration_call, acquire_call, find_lock_call, release_call, invocation_call,
  result_call, audit_call, result_and_audit_call, run,
}
use atelia_secretary.Store.State.{InMemoryInner}

-- The store holds a later state of the job.
abbrev pub Continues : JobId → JobRecord → InMemoryInner → Type 0
Continues job_id job inner =
    (new : JobRecord) × (get inner.jobs job_id ≡ some new) × Follows job new

module _ (job_id : JobId) (job : JobRecord) where
  -- The job is replaced by a later state, or it is another job that is replaced.
  with_job-Continues :
      (inner : InMemoryInner) (update : JobRecord)
      → Continues job_id job inner
      → ((old : JobRecord) → get inner.jobs update.id ≡ some old → Follows old update)
      → Continues job_id job (with_job inner update)
  unfolding with_job
  with_job-Continues inner update (old, found, follows) step =
      elim (Bool-cases (update.id == job_id)) [
        | inl same ↦ (
          update,
          ground (arith, get-insert_ordered inner.jobs update.id job_id update),
          Follows-trans job old update follows (step old (ground arith)),
        )
        | inr other ↦
            (old, ground (arith, get-insert_ordered inner.jobs update.id job_id update), follows)
      ]

  module _ (host : Host) (inner : InMemoryInner) (h : Continues job_id job inner) where
    -- Appending an event does not touch the jobs.
    appended-jobs :
        (s : InMemoryInner) (e : JobEvent) (r : InMemoryInner × JobEvent)
        → append_event_locked s e ≡ ok r
        → r.0.jobs ≡ s.jobs
    unfolding with_event
    appended-jobs s e r p = rw (append_event_locked-with_event s e r p) refl

    -- The record that an accepted update writes follows the one that it replaces.
    validated-Follows :
        (j : JobRecord) (e : JobEvent)
        → validate_job_update inner j e ≡ ok tt
        → (old : JobRecord) × (get inner.jobs j.id ≡ some old) × Follows old (latest j e)
    unfolding validate_job_update
    validated-Follows j e valid =
        let (old, found, v) = >>=-eq-ok _ _ valid in
        (
          old,
          ok_or-some _ _ old found,
          Follows-relabel old j old.latest_event_id (some e.id)
              (validate_job_update_against-Follows old j e (>>-eq-ok _ _ v).1),
        )

    written-Continues :
        (s : InMemoryInner) (j : JobRecord)
        → s.jobs ≡ inner.jobs
        → ((old : JobRecord) × (get inner.jobs j.id ≡ some old) × Follows old j)
        → Continues job_id job (with_job s j)
    written-Continues s j same (old, found, follows) =
        let (new, at, f) = h in
        with_job-Continues s j (new, rw same at, f)
          λ old' found'.
            let found'' : get inner.jobs j.id ≡ some old' = rw (← same) found' in
            let e : old ≡ old' = cc (found, found'') in rw (← e) follows

    job-Continues :
        (j : JobRecord) (e : JobEvent)
        → DraftKeeps (Continues job_id job) (create_job_draft host j e inner)
    unfolding create_job_draft with_event
    job-Continues j e = Ensures-seq _ _ _ λ refs. Ensures-seq _ _ _ λ unique.
        let absent = contains_key-false inner.jobs j.id (reject_if-false _ _ unique) in
        Ensures-seq _ _ _ λ initial. Ensures-seq _ _ _ λ valid. Ensures-bind _ _ _ λ n p.
          Ensures-pure _ _ (with_job-Continues inner _ h λ old found. absurd (cc (absent, found)))

    event-Continues :
        (e : JobEvent) → DraftKeeps (Continues job_id job) (append_job_event_draft host e inner)
    unfolding append_job_event_draft
    event-Continues e = Ensures-seq _ _ _ λ valid.
        Ensures-bind _ _ _ λ r p.
          let (new, at, f) = h in Ensures-pure _ _ (new, rw (appended-jobs inner e r p) at, f)

    update-Continues :
        (j : JobRecord) (e : JobEvent)
        → DraftKeeps (Continues job_id job) (append_job_event_and_update_job_draft host j e inner)
    unfolding append_job_event_and_update_job_draft
    update-Continues j e = Ensures-seq _ _ _ λ checked. Ensures-seq _ _ _ λ valid.
        Ensures-bind _ _ _ λ r p. Ensures-pure _ _ (
          written-Continues r.0 (latest j e) (appended-jobs inner e r p)
            (validated-Follows j e checked))

    two_updates-Continues :
        (j : JobRecord) (e : JobEvent) (k : JobRecord) (f : JobEvent)
        → DraftKeeps
            (Continues job_id job)
            (append_job_events_and_update_job_draft host j e k f inner)
    unfolding append_job_events_and_update_job_draft validate_two_stage_job_update_identity
    two_updates-Continues j e k f = Ensures-seq _ _ _ λ distinct. Ensures-seq _ _ _ λ identity.
        let one : j.id ≡ k.id = ground (arith, reject_if-false _ _ (>>-eq-ok _ _ identity).0) in
        Ensures-seq _ _ _ λ checked.
          let (old, found, follows) = validated-Follows j e checked in
          Ensures-seq _ _ _ λ valid. Ensures-seq _ _ _ λ checked'.
            let final =
              Follows-relabel (latest j e) k (some e.id) (some f.id)
                (validate_job_update_against-Follows (latest j e) k f checked') in
            Ensures-seq _ _ _ λ valid'. Ensures-bind _ _ _ λ capacity enough.
              Ensures-bind _ _ _ λ r p. Ensures-bind _ _ _ λ s q. Ensures-pure _ _ (
                written-Continues s.0 (latest k f)
                  (appended-jobs r.0 f s q ∙ appended-jobs inner e r p)
                  (
                    old,
                    rw (← one) found,
                    Follows-trans old (latest j e) (latest k f) follows final,
                  ))

-- Both updates of a job write the same record, apart from the latest event.
module _ (job_id : JobId) (job : JobRecord) (host : Host) (inner : InMemoryInner)
    (h : Continues job_id job inner) where
  result_and_audit-Continues :
      (j : JobRecord) (r : ToolResult) (e : JobEvent) (a : AuditRecord) (f : JobEvent)
      → DraftKeeps (Continues job_id job) (record_tool_result_and_audit_draft host j r e a f inner)
  unfolding record_tool_result_and_audit_draft validate_result_and_audit with_job
  result_and_audit-Continues j r e a f = Ensures-seq _ _ _ λ checked.
      let (update, c) = >>-eq-ok _ _ (>>-eq-ok _ _ checked).1 in
      Ensures-bind _ _ _ λ first p. Ensures-bind _ _ _ λ second q.
        let recorded = with_audit (with_job first.0 (latest j e)) a in
        let once : Continues job_id job recorded =
          written-Continues job_id job host inner h first.0 (latest j e)
            (appended-jobs job_id job host inner h (with_result inner r) e first p)
            (validated-Follows job_id job host inner h j e update) in
        Ensures-pure _ _ (
          written-Continues job_id job host recorded once second.0 (latest j f)
            (appended-jobs job_id job host recorded once recorded f second q)
            (
              latest j e,
              get-insert_ordered_self first.0.jobs j.id (latest j e),
              Follows-relabel j j (some e.id) (some f.id) (Follows-refl j),
            ))

keeps-Continues :
    (job_id : JobId) (job : JobRecord) (host : Host) (inner : InMemoryInner) (call : Call)
    → Continues job_id job inner
    → CallKeeps (Continues job_id job) host inner call
unfolding with_event
keeps-Continues job_id job host inner (repository_call r) h =
    λ valid. repository-frame (Continues job_id job) inner (λ m. h) r
keeps-Continues job_id job host inner (job_call j e) h = job-Continues job_id job host inner h j e
keeps-Continues job_id job host inner (event_call e) h = event-Continues job_id job host inner h e
keeps-Continues job_id job host inner (update_call j e) h =
    update-Continues job_id job host inner h j e
keeps-Continues job_id job host inner (two_updates_call j e k f) h =
    two_updates-Continues job_id job host inner h j e k f
keeps-Continues job_id job host inner (policy_call d) h =
    policy-frame (Continues job_id job) inner (λ m. h) d
keeps-Continues job_id job host inner (lock_call l) h =
    lock-frame (Continues job_id job) inner (λ m. h) l
keeps-Continues job_id job host inner (migration_call r) h =
    λ valid. migration-frame (Continues job_id job) inner (λ m. h) r
keeps-Continues job_id job host inner (acquire_call id leader safe timeout at) h =
    acquire-frame (Continues job_id job) inner (λ m. h) id leader safe timeout at
keeps-Continues job_id job host inner (find_lock_call now) h =
    find_lock-frame (Continues job_id job) inner (λ m. h) now
keeps-Continues job_id job host inner (release_call id leader at) h =
    release-frame (Continues job_id job) inner (λ m. h) id leader at
keeps-Continues job_id job host inner (invocation_call r) h =
    invocation-frame (Continues job_id job) inner (λ m. h) r
keeps-Continues job_id job host inner (result_call r) h =
    result-frame (Continues job_id job) inner (λ m. h) r
keeps-Continues job_id job host inner (audit_call r) h =
    audit-frame (Continues job_id job) inner (λ m. h) r
keeps-Continues job_id job host inner (result_and_audit_call j r e a f) h =
    result_and_audit-Continues job_id job host inner h j r e a f

-- A job of the store stays there whatever calls follow, successful or not, and each later
-- record of it follows the present one: what is fixed is the same, time does not run backwards,
-- the status moves along legal transitions, and a finished job stays as it finished.
pub run-Continues :
    (host : Host) (calls : List Call) (inner : InMemoryInner) (job : JobRecord) (job_id : JobId)
    → get inner.jobs job_id ≡ some job
    → Continues job_id job (run host inner calls)
run-Continues host calls inner job job_id found =
    run-keeps (Continues job_id job) host (keeps-Continues job_id job host) inner calls
      (job, found, Follows-refl job)
