-- ===== src/Runtime/Outcome.antt =====
-- What a cancellation that succeeds leaves behind, crates/atelia-core/src/runtime.rs.
use atelia_secretary.Base.{
  String, err, string_ord, not, false, Bool-cases, eq→path, ap, ◌∙◌, ◌≡◌, ◌⊎◌, inl, inr, refl, some,
  ok, ◌||◌, ◌==◌, get, arith, map_err-eq-ok, >>=-eq-ok, >>-eq-ok, reject_if-false, ok_or-some,
  Ensures, Ensures-seq, Ensures-bind, Ensures-ok, Ensures-pure, get-insert_ordered_self, string_eq,
}
use atelia_secretary.Domain.Time.{LedgerTimestamp}
use atelia_secretary.Domain.Ids.{JobId}
use atelia_secretary.Domain.Job.{
  JobRecord, JobStatus, queued, running, canceled, status_eq, transition_status, moved,
}
use atelia_secretary.Domain.Event.{JobEvent}
use atelia_secretary.Store.State.{InMemoryInner}
use atelia_secretary.Store.Checks.{get_record}
use atelia_secretary.Store.Mutate.{Host, Draft}
use atelia_secretary.Store.Mutate.Keeps.{mutate_with_published_events-ok}
use atelia_secretary.Store.Ledger.{
  with_event, append_event_locked, append_job_events_and_update_job,
  append_job_events_and_update_job_draft, with_job, latest,
}
use atelia_secretary.Runtime.{
  RuntimeResult, CancelJobReceipt, Cancellation, Stamp, cancel_job, commit_cancellation,
  plan_cancellation, receipt,
}

transition_status-ok :
    (job after : JobRecord) (next : JobStatus) (at : LedgerTimestamp)
    → transition_status job next at ≡ ok after
    → (after.status ≡ next) × (after.id ≡ job.id)
unfolding transition_status moved
transition_status-ok job after next at h =
    let (allowed, h1) = >>-eq-ok _ _ h in
    let (later, h2) = >>-eq-ok _ _ h1 in
    let same : moved job next at ≡ after = cc h2 in rw (← same) (refl, refl)

unfinished_of :
    (status : JobStatus)
    → not (status == queued || status == running) ≡ false
    → (status ≡ queued) ⊎ (status ≡ running)
unfinished_of status h = elim (Bool-cases (status == queued)) [
  | inl is_queued ↦ inl (eq→path status queued is_queued)
  | inr not_queued ↦ inr (eq→path status running (ground (arith, h, not_queued)))
]

-- An event keeps its identifier when it is numbered.
append_event_locked-id :
    (inner : InMemoryInner) (event : JobEvent) (r : InMemoryInner × JobEvent)
    → append_event_locked inner event ≡ ok r
    → event.id ≡ r.1.id
unfolding append_event_locked with_event
append_event_locked-id inner event r h =
    let (next, room, e) = >>=-eq-ok _ _ h in
    let same : (with_event inner event next, record event { sequence_number = next }) ≡ r = cc e in
    ap (λ (p : InMemoryInner × JobEvent). p.1.id) same

module _ (host : Host) (inner : InMemoryInner) (id : JobId) (cancel status : Stamp)
    (at : LedgerTimestamp) (reason : String) where
  -- What is planned: the cancellation of a job that is queued or running.
  record IsPlanned (plan : Cancellation) : Type 0 where
    job : JobRecord
    found : get inner.jobs id ≡ some job
    unfinished : (job.status ≡ queued) ⊎ (job.status ≡ running)
    over : plan.canceled_job.status ≡ canceled
    same_id : plan.canceled_job.id ≡ job.id

  plan_cancellation-ok :
      (plan : Cancellation)
      → plan_cancellation cancel status at reason inner id ≡ ok plan
      → IsPlanned plan
  unfolding plan_cancellation get_record
  plan_cancellation-ok plan h =
      let (job, found, h1) = >>=-eq-ok _ _ h in
      let (open_job, h2) = >>-eq-ok _ _ h1 in
      let (final, moved_job, h3) = >>=-eq-ok _ _ h2 in
      let (over, same_id) =
        transition_status-ok _ final canceled at (map_err-eq-ok _ _ moved_job) in
      let same : final ≡ plan.canceled_job = cc h3 in
      record {
        job = job;
        found = ok_or-some _ _ job (map_err-eq-ok _ _ found);
        unfinished = unfinished_of job.status (reject_if-false _ _ open_job);
        over = rw (← same) over;
        same_id = rw (← same) same_id;
      }

  draft-stored :
      (j : JobRecord) (e : JobEvent) (k : JobRecord) (f : JobEvent)
      → Ensures
          (λ (d : Draft (JobEvent × JobEvent)). get d.inner.jobs k.id ≡ some (latest k d.result.1))
          (append_job_events_and_update_job_draft host j e k f inner)
  unfolding append_job_events_and_update_job_draft with_job
  draft-stored j e k f = Ensures-seq _ _ _ λ distinct. Ensures-seq _ _ _ λ identity.
      Ensures-seq _ _ _ λ checked. Ensures-seq _ _ _ λ valid. Ensures-seq _ _ _ λ checked'.
        Ensures-seq _ _ _ λ valid'. Ensures-bind _ _ _ λ capacity enough. Ensures-bind _ _ _ λ r p.
          Ensures-bind _ _ _ λ s q. Ensures-pure _ _ (
            get-insert_ordered_self s.0.jobs k.id (latest k f)
            ∙ ap (λ event_id. some (record k { latest_event_id = some event_id }))
                (append_event_locked-id r.0 f s q))

  -- What is left by a cancellation that succeeds.
  pub record IsCanceled (r : CancelJobReceipt) (after : InMemoryInner) : Type 0 where
    pub job : JobRecord
    pub found : get inner.jobs id ≡ some job
    pub unfinished : (job.status ≡ queued) ⊎ (job.status ≡ running)
    pub same_id : r.job.id ≡ job.id
    pub over : r.job.status ≡ canceled
    pub stored : get after.jobs job.id ≡ some r.job
    pub written : host.persist after ≡ ok tt

  commit-ok :
      (plan : RuntimeResult Cancellation) (r : CancelJobReceipt)
      → ((p : Cancellation) → plan ≡ ok p → IsPlanned p)
      → (commit_cancellation cancel status at reason host inner plan).0 ≡ ok r
      → IsCanceled r (commit_cancellation cancel status at reason host inner plan).1
  unfolding append_job_events_and_update_job
  commit-ok (err failure) r planned h = absurd (cc)
  commit-ok (ok plan) r planned h =
      let p = planned plan refl in
      let (events, committed, e) = >>=-eq-ok _ _ h in
      let (draft, drafted, written, published, same_state, same_result) =
        mutate_with_published_events-ok host _ inner events (map_err-eq-ok _ _ committed) in
      let stored =
        Ensures-ok _ _ draft
          (draft-stored plan.requested_job plan.cancel_event plan.canceled_job plan.status_event)
          drafted in
      let same : receipt cancel status at reason plan.canceled_job events ≡ r = cc e in
      rw (← same) (record {
        job = p.job;
        found = p.found;
        unfinished = p.unfinished;
        same_id = p.same_id;
        over = p.over;
        stored = rw (← p.same_id, same_state, same_result) stored;
        written = rw same_state written;
      })

  -- A cancellation succeeds only for a stored job that is queued or running; the receipt then has
  -- the same job, canceled, and that is what the store holds of it, in a state that has been
  -- written.
  pub cancel_job-IsCanceled :
      (r : CancelJobReceipt)
      → (cancel_job cancel status at reason host id inner).0 ≡ ok r
      → IsCanceled r (cancel_job cancel status at reason host id inner).1
  unfolding cancel_job
  cancel_job-IsCanceled r h = commit-ok _ r plan_cancellation-ok h
