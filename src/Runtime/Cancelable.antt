-- ===== src/Runtime/Cancelable.antt =====
-- When the store accepts a cancellation, crates/atelia-core/src/runtime.rs and
-- crates/atelia-core/src/store.rs.
use atelia_secretary.Store.Subjects.{
  repository_of_subject, subject_repository_id, validate_event_subject,
}
use atelia_secretary.Store.EventRefs.{
  ensure_subject_ref_matches, ensure_event_identity_consistency,
  ensure_event_repository_consistency, imply_job, imply_repository, initial_lineage,
  check_audit_ref, check_result_ref, check_invocation_ref, check_lock_ref, check_policy_ref,
  check_job_ref, check_repository_ref, validate_event_refs,
  validate_new_job_event_with_pending_records, validate_new_job_event,
}
use atelia_secretary.Store.Ledger.{latest}
use atelia_secretary.Store.Checks.{ensure_ref_exists, ensure_same_repository}
use atelia_secretary.Base.{
  ◌||◌, ◌!=◌, Option, ◌>>=◌, ne_refl, String, ℕ, ◌+◌, ◌≤◌, ◌≡◌, true, false, ◌&&◌, none, some, refl,
  arith, get, find, values, contains_key, ◌==◌, ok, ◌>>◌, eq_refl, is_none, ltb, ◌⊎◌, string_eq,
  nat_eq, option_eq,
}
use atelia_secretary.Domain.Time.{LedgerTimestamp, u64_max}
use atelia_secretary.Domain.Repository.{RepositoryRecord, actor_eq}
use atelia_secretary.Domain.Policy.{summary_eq}
use atelia_secretary.Domain.Job.{
  succeeded, failed, blocked, can_transition_to, max_with, JobStatus-discrete, moves_to,
  ensure_monotonic_transition_timestamp, canceled, can_transition_to, transition_status, moved,
  CancellationState-discrete, JobRecord, JobStatus, queued, running, not_requested, status_eq,
  kind_eq, cancellation_eq, is_terminal, latest_timestamp,
}
use atelia_secretary.Domain.Event.{
  EventSeverity, JobEventKind, EventSubjectType-discrete, JobEvent, has_valid_subject_id,
}
use atelia_secretary.Store.State.{InMemoryInner}
use atelia_secretary.Store.Mutate.{Host}
use atelia_secretary.Store.JobUpdate.{
  is_cancellation_request, validate_status_change, validate_job_update_against,
  validate_job_lifecycle_update, validate_same_status, validate_job_cancellation_update,
  validate_job_policy_summary_update, ensure_immutable_job_field,
}
use atelia_secretary.Domain.Event.{subject_type_eq}
use atelia_secretary.Runtime.{
  refs_for_job, status_event_of, job_event, Stamp, job_subject, cancellation_requested_job,
  cancel_event_of,
}

-- A job that is queued or running, as the store keeps it, with fresh identifiers for two events,
-- room for them, and a time that is not before the job's.
pub record IsCancelable (host : Host) (inner : InMemoryInner) (job : JobRecord)
    (cancel status : Stamp) (at : LedgerTimestamp) : Type 0 where
  pub stored : get inner.jobs job.id ≡ some job
  pub listed : find (λ (j : JobRecord). j.id == job.id) (values inner.jobs) ≡ some job
  pub home : RepositoryRecord
  pub known : get inner.repositories job.repository_id ≡ some home
  pub valid_id : has_valid_subject_id host.parses_uuid (job_subject job.id) ≡ true
  pub unfinished : (job.status ≡ queued) ⊎ (job.status ≡ running)
  pub not_asked : job.cancellation_state ≡ not_requested
  pub uncompleted : job.completed_at ≡ none
  pub started : (job.status == running && is_none job.started_at) ≡ false
  pub in_time : latest_timestamp job ≤ at
  pub fresh_cancel : contains_key inner.job_events_by_id cancel.id ≡ false
  pub fresh_status : contains_key inner.job_events_by_id status.id ≡ false
  pub distinct : (cancel.id == status.id) ≡ false
  pub room : inner.next_event_sequence + 2 ≤ u64_max
  pub written : (after : InMemoryInner) → host.persist after ≡ ok tt

ltb_refl : (n : ℕ) → ltb n n ≡ false
ltb_refl n = ground arith

pub open-is_terminal : (s : JobStatus) → (s ≡ queued) ⊎ (s ≡ running) → is_terminal s ≡ false
unfolding is_terminal
open-is_terminal s h = ground arith

unfinished-can_transition_to :
    (s : JobStatus) → (s ≡ queued) ⊎ (s ≡ running) → can_transition_to s canceled ≡ true
unfolding can_transition_to moves_to JobStatus-discrete
unfinished-can_transition_to queued h = refl
unfinished-can_transition_to running h = refl
unfinished-can_transition_to succeeded h = absurd (ground arith)
unfinished-can_transition_to failed h = absurd (ground arith)
unfinished-can_transition_to blocked h = absurd (ground arith)
unfinished-can_transition_to canceled h = absurd (ground arith)

unfinished-canceled : (s : JobStatus) → (s ≡ queued) ⊎ (s ≡ running) → (canceled != s) ≡ true
unfolding JobStatus-discrete
unfinished-canceled s h = ground arith

pub unfinished-test :
    (s : JobStatus) → (s ≡ queued) ⊎ (s ≡ running) → (s == queued || s == running) ≡ true
unfolding JobStatus-discrete
unfinished-test s h = ground arith

canceled-running : (canceled == running) ≡ false
unfolding JobStatus-discrete
canceled-running = refl

max_with-least : (t : LedgerTimestamp) (o : Option LedgerTimestamp) → t ≤ max_with t o
max_with-least t none = omega arith
max_with-least t (some u) = omega arith

latest_timestamp-updated : (job : JobRecord) → job.updated_at ≤ latest_timestamp job
unfolding latest_timestamp
latest_timestamp-updated job = omega (
  arith,
  max_with-least job.updated_at job.started_at,
  max_with-least (max_with job.updated_at job.started_at) job.completed_at,
)

module _ (host : Host) (inner : InMemoryInner) (job : JobRecord) (cancel status : Stamp)
    (at : LedgerTimestamp) (reason : String)
    (h : IsCancelable host inner job cancel status at) where
  abbrev pub first_job : JobRecord
  first_job = cancellation_requested_job cancel status at reason job

  abbrev pub first_event : JobEvent
  first_event = cancel_event_of cancel status at reason first_job

  first_lifecycle : validate_job_lifecycle_update job first_job first_event ≡ ok tt
  unfolding validate_job_lifecycle_update validate_same_status cancel_event_of job_event ◌>>◌
  first_lifecycle =
      rw
        (
          ltb_refl job.updated_at,
          ne_refl job.status,
          ne_refl job.started_at,
          ne_refl job.completed_at,
          h.started,
          open-is_terminal job.status h.unfinished,
          h.uncompleted,
        )
        refl

  first_cancellation : validate_job_cancellation_update job first_job first_event ≡ ok tt
  unfolding validate_job_cancellation_update cancel_event_of job_event CancellationState-discrete
  first_cancellation = rw h.not_asked refl

  first_summary : validate_job_policy_summary_update job first_job first_event ≡ ok tt
  unfolding validate_job_policy_summary_update
  first_summary = rw (eq_refl job.policy_summary) refl

  pub first_accepted : validate_job_update_against job first_job first_event ≡ ok tt
  unfolding validate_job_update_against ensure_immutable_job_field ensure_same_repository
      cancel_event_of job_event ◌>>◌
  first_accepted =
      rw
        (
          ne_refl job.repository_id,
          ne_refl job.schema_version,
          ne_refl job.created_at,
          ne_refl job.requester,
          ne_refl job.kind,
          ne_refl job.goal,
          first_lifecycle,
          first_cancellation,
          first_summary,
          ne_refl (some job.id),
          ne_refl (some job.repository_id),
        )
        refl

  abbrev pub second_job : JobRecord
  second_job = latest first_job first_event

  abbrev pub final_job : JobRecord
  final_job = moved second_job canceled at

  abbrev pub final_event : JobEvent
  final_event = status_event_of cancel status at reason job.status final_job

  on_time : ltb at (latest_timestamp second_job) ≡ false
  unfolding latest_timestamp
  on_time = let in_time : latest_timestamp second_job ≤ at = h.in_time in ground (arith, in_time)

  pub transition_canceled : transition_status second_job canceled at ≡ ok final_job
  unfolding transition_status ensure_monotonic_transition_timestamp ◌>>◌
  transition_canceled = rw (unfinished-can_transition_to job.status h.unfinished, on_time) refl

  not_backwards : ltb at job.updated_at ≡ false
  not_backwards = ground (arith, latest_timestamp-updated job, h.in_time)

  final_lifecycle : validate_job_lifecycle_update second_job final_job final_event ≡ ok tt
  unfolding validate_job_lifecycle_update validate_status_change status_event_of job_event ◌>>◌
      ◌>>=◌ moved
  final_lifecycle =
      rw
        (
          not_backwards,
          unfinished-canceled job.status h.unfinished,
          eq_refl job.status,
          eq_refl canceled,
          transition_canceled,
          ne_refl final_job.started_at,
          ne_refl final_job.completed_at,
          canceled-running,
          h.uncompleted,
        )
        refl

  final_cancellation : validate_job_cancellation_update second_job final_job final_event ≡ ok tt
  unfolding validate_job_cancellation_update status_event_of job_event moved
      CancellationState-discrete is_cancellation_request
  final_cancellation = refl

  final_summary : validate_job_policy_summary_update second_job final_job final_event ≡ ok tt
  unfolding validate_job_policy_summary_update moved
  final_summary = rw (eq_refl job.policy_summary) refl

  pub final_accepted : validate_job_update_against second_job final_job final_event ≡ ok tt
  unfolding validate_job_update_against ensure_immutable_job_field ensure_same_repository
      status_event_of job_event ◌>>◌ moved
  final_accepted =
      rw
        (
          ne_refl job.repository_id,
          ne_refl job.schema_version,
          ne_refl job.created_at,
          ne_refl job.requester,
          ne_refl job.kind,
          ne_refl job.goal,
          final_lifecycle,
          final_cancellation,
          final_summary,
          ne_refl (some job.id),
          ne_refl (some job.repository_id),
        )
        refl

  -- An event about the job, with an identifier that is not taken.
  pub event_accepted :
      (stamp : Stamp) (kind : JobEventKind) (severity : EventSeverity) (message : String)
      → contains_key inner.job_events_by_id stamp.id ≡ false
      → validate_new_job_event host.parses_uuid inner
          (job_event stamp (job_subject job.id) kind severity message (refs_for_job job))
          none
        ≡ ok tt
  unfolding validate_new_job_event validate_new_job_event_with_pending_records job_event
      validate_event_subject subject_repository_id repository_of_subject validate_event_refs
      check_repository_ref check_job_ref check_policy_ref check_lock_ref check_invocation_ref
      check_result_ref check_audit_ref initial_lineage imply_repository imply_job
      ensure_event_repository_consistency ensure_event_identity_consistency
      ensure_subject_ref_matches ensure_same_repository ensure_ref_exists EventSubjectType-discrete
      ◌>>=◌ ◌>>◌
  event_accepted stamp kind severity message fresh =
      rw (fresh, h.valid_id, h.listed, h.known, h.stored, ne_refl job.repository_id, eq_refl job.id)
        refl
