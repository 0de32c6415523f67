-- ===== src/Runtime/Cancel.antt =====
-- A cancellation as a whole, crates/atelia-core/src/runtime.rs.
use atelia_secretary.Store.Mutate.Keeps.{mutate_with_published_events-err}
use atelia_secretary.Store.Publish.{
  derive_event_repository_from_refs, event_repository_id, prepare_job_event_publish,
}
use atelia_secretary.Domain.Ids.{JobId}
use atelia_secretary.Base.{
  map_err, err, String, ℕ, ◌+◌, ◌≡◌, ◌≤◌, true, some, [], ◌∷◌, refl, arith, ok, ◌>>=◌, ◌>>◌,
  ne_refl, leb, le→leb, string_eq, option_eq,
}
use atelia_secretary.Domain.Time.{LedgerTimestamp, u64_max}
use atelia_secretary.Domain.Job.{moved, JobRecord, canceled, status_eq}
use atelia_secretary.Domain.Event.{JobEvent, warning, cancellation_requested, job_status_changed}
use atelia_secretary.Store.State.{StoreError, StoreResult, InMemoryInner}
use atelia_secretary.Store.Checks.{get_record, ensure_event_sequence_capacity}
use atelia_secretary.Store.Mutate.{mutate_with_published_events, Host}
use atelia_secretary.Store.JobUpdate.{
  validate_job_update, validate_sibling_event_ids_are_unique,
  validate_two_stage_job_update_identity,
}
use atelia_secretary.Store.Ledger.{
  append_job_events_and_update_job, latest, with_event, with_job, append_event_locked,
  append_job_events_and_update_job_draft,
}
use atelia_secretary.Runtime.{
  store, commit_cancellation, Cancellation, RuntimeResult, RuntimeError, cancel_job,
  plan_cancellation, Stamp, cancel_event_of, status_event_of, job_event,
}
use atelia_secretary.Runtime.Cancelable.{
  transition_canceled, unfinished-test, IsCancelable, first_job, first_event, final_job,
  final_event, first_accepted, final_accepted, event_accepted,
}

module _ (host : Host) (inner : InMemoryInner) (job : JobRecord) (cancel status : Stamp)
    (at : LedgerTimestamp) (reason : String)
    (h : IsCancelable host inner job cancel status at) where
  abbrev pub first : JobEvent
  first = first_event host inner job cancel status at reason h

  abbrev pub final : JobEvent
  final = final_event host inner job cancel status at reason h

  abbrev pub canceled_job : JobRecord
  canceled_job = final_job host inner job cancel status at reason h

  -- The store after a cancellation: the two events, numbered, and the job.
  abbrev pub canceled_store : InMemoryInner
  canceled_store =
      with_job
        (with_event (with_event inner first (inner.next_event_sequence + 1)) final
          (inner.next_event_sequence + 1 + 1))
        (latest canceled_job final)

  abbrev pub numbered : JobEvent × JobEvent
  numbered = (
    record first { sequence_number = inner.next_event_sequence + 1 },
    record final { sequence_number = inner.next_event_sequence + 1 + 1 },
  )

  updated :
      validate_job_update inner (first_job host inner job cancel status at reason h) first ≡ ok tt
  unfolding validate_job_update ◌>>=◌ ◌>>◌
  updated =
      rw
        (
          h.stored,
          ne_refl job.latest_event_id,
          first_accepted host inner job cancel status at reason h,
        )
        refl

  room_for : (n k : ℕ) → n ≡ inner.next_event_sequence + k → k ≤ 2 → leb n u64_max ≡ true
  room_for n k e few = le→leb n u64_max (omega (arith, h.room, e, few))

  drafted :
      append_job_events_and_update_job_draft host
        (first_job host inner job cancel status at reason h)
        first
        canceled_job
        final
        inner
      ≡ ok (record {
        inner = canceled_store;
        result = numbered;
        events = numbered.0 ∷ numbered.1 ∷ [];
      })
  unfolding append_job_events_and_update_job_draft validate_sibling_event_ids_are_unique
      validate_two_stage_job_update_identity ensure_event_sequence_capacity append_event_locked
      cancel_event_of status_event_of job_event with_event moved ◌>>=◌ ◌>>◌
  drafted =
      rw
        (
          h.distinct,
          ne_refl job.id,
          ne_refl (some job.id),
          updated,
          event_accepted host inner job cancel status at reason h cancel cancellation_requested
              warning reason h.fresh_cancel,
          final_accepted host inner job cancel status at reason h,
          event_accepted host inner job cancel status at reason h status
              (job_status_changed job.status canceled) warning "job cancelled" h.fresh_status,
          room_for (inner.next_event_sequence + 2) 2 refl (omega arith),
          room_for (inner.next_event_sequence + 1) 1 refl (omega arith),
          room_for (inner.next_event_sequence + 1 + 1) 2 (omega arith) (omega arith),
        )
        refl

  published : prepare_job_event_publish canceled_store (numbered.0 ∷ numbered.1 ∷ []) ≡ ok tt
  unfolding prepare_job_event_publish event_repository_id derive_event_repository_from_refs
      cancel_event_of status_event_of job_event with_event with_job get_record moved ◌>>=◌ ◌>>◌
  published = rw h.known refl

  committed :
      append_job_events_and_update_job host
        (first_job host inner job cancel status at reason h)
        first
        canceled_job
        final
        inner
      ≡ (ok numbered, canceled_store)
  unfolding append_job_events_and_update_job mutate_with_published_events ◌>>=◌ ◌>>◌
  committed = rw (drafted, published, h.written canceled_store) refl

  planned :
      plan_cancellation cancel status at reason inner job.id
      ≡ ok (record {
        requested_job = first_job host inner job cancel status at reason h;
        cancel_event = first;
        canceled_job = canceled_job;
        status_event = final;
      })
  unfolding plan_cancellation get_record ◌>>=◌ ◌>>◌
  planned =
      rw
        (
          h.stored,
          unfinished-test job.status h.unfinished,
          transition_canceled host inner job cancel status at reason h,
        )
        refl

  -- A queued or running job of the store, whose cancellation was not requested before, is canceled
  -- when it is asked for: the two events get the next two numbers, the job is canceled at the
  -- given time, and nothing else of the store changes. The repository is known, the identifiers of
  -- the events are not taken, there is room for two events, the time is not before the job's, and
  -- the snapshot is written.
  pub cancel_job-canceled : cancel_job cancel status at reason host job.id inner ≡ (
    ok (record { job = latest canceled_job final; events = numbered.0 ∷ numbered.1 ∷ [] }),
    canceled_store,
  )
  unfolding cancel_job ◌>>=◌
  cancel_job-canceled = rw (planned, committed) refl

module _ (host : Host) (inner : InMemoryInner) (id : JobId) (cancel status : Stamp)
    (at : LedgerTimestamp) (reason : String) where
  stored-err :
      {A B : Type 0} (m : StoreResult A) (f : A → B) (e : RuntimeError)
      → (map_err store m >>= λ a. ok (f a)) ≡ err e
      → (failure : StoreError) × (m ≡ err failure)
  unfolding ◌>>=◌
  stored-err (ok a) f e h = cc
  stored-err (err failure) f e h = (failure, refl)

  kept :
      (plan : Cancellation) (failure : StoreError)
      → (append_job_events_and_update_job host plan.requested_job plan.cancel_event
          plan.canceled_job plan.status_event inner).0
        ≡ err failure
      → (append_job_events_and_update_job host plan.requested_job plan.cancel_event
          plan.canceled_job plan.status_event inner).1
        ≡ inner
  unfolding append_job_events_and_update_job
  kept plan failure failed = mutate_with_published_events-err host _ inner failure failed

  commit-err :
      (plan : RuntimeResult Cancellation) (e : RuntimeError)
      → (commit_cancellation cancel status at reason host inner plan).0 ≡ err e
      → (commit_cancellation cancel status at reason host inner plan).1 ≡ inner
  commit-err (err failure) e h = refl
  commit-err (ok plan) e h = let (failure, failed) = stored-err _ _ e h in kept plan failure failed

  -- A cancellation that fails, for whatever reason, leaves the store as it was.
  pub cancel_job-err :
      (e : RuntimeError)
      → (cancel_job cancel status at reason host id inner).0 ≡ err e
      → (cancel_job cancel status at reason host id inner).1 ≡ inner
  unfolding cancel_job
  cancel_job-err e h = commit-err _ e h
