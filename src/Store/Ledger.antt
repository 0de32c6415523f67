-- ===== src/Store/Ledger.antt =====
-- The operations that append job events, crates/atelia-core/src/store.rs. Each mutator returns
-- its draft; the operation of the same name without the ending runs it as a transaction.
pub mod Dense
use atelia_secretary.Base.{
  ℕ, none, some, [], ◌∷◌, insert, insert_ordered, contains_key, ok, ◌>>=◌, ◌>>◌, reject_if, ok_or,
  string_eq, nat_eq, string_ord, nat_ord,
}
use atelia_secretary.Domain.Job.{JobRecord}
use atelia_secretary.Domain.Event.{JobEvent}
use atelia_secretary.Store.State.{StoreResult, InMemoryInner, duplicate_id, sequence_overflow}
use atelia_secretary.Store.Checks.{checked_add, ensure_ref_exists, ensure_event_sequence_capacity}
use atelia_secretary.Store.JobUpdate.{
  validate_job_update, validate_job_update_against, validate_sibling_event_ids_are_unique,
  validate_two_stage_job_update_identity, validate_initial_event_for_job,
}
use atelia_secretary.Store.EventRefs.{validate_new_job_event}
use atelia_secretary.Store.Mutate.{Host, Draft, mutate_with_published_events}

-- The state after an event has been given the next sequence number.
unfoldable pub with_event : InMemoryInner → JobEvent → ℕ → InMemoryInner
with_event inner event sequence = record inner {
  next_event_sequence = sequence;
  job_events_by_sequence = insert_ordered inner.job_events_by_sequence sequence event.id;
  job_events_by_id =
      insert inner.job_events_by_id event.id (record event { sequence_number = sequence });
}

unfoldable pub with_job : InMemoryInner → JobRecord → InMemoryInner
with_job inner job = record inner { jobs = insert_ordered inner.jobs job.id job }

-- The new state, and the event with its number.
unfoldable pub append_event_locked :
    InMemoryInner → JobEvent → StoreResult (InMemoryInner × JobEvent)
unfolding with_event
append_event_locked inner event = do
  next_sequence ← ok_or (checked_add inner.next_event_sequence 1) sequence_overflow
  ok (with_event inner event next_sequence, record event { sequence_number = next_sequence })

abbrev pub latest : JobRecord → JobEvent → JobRecord
latest job event = record job { latest_event_id = some event.id }

unfoldable pub validate_job_refs : InMemoryInner → JobRecord → StoreResult (Unit {0})
validate_job_refs inner job =
    ensure_ref_exists (contains_key inner.repositories job.repository_id) "repositories"
      job.repository_id

module _ (host : Host) where
  unfoldable pub create_job_draft :
      JobRecord → JobEvent → InMemoryInner → StoreResult (Draft JobEvent)
  unfolding with_event with_job
  create_job_draft job initial_event inner = do
    validate_job_refs inner job
    reject_if (contains_key inner.jobs job.id) (duplicate_id "jobs" job.id)
    validate_initial_event_for_job job initial_event
    validate_new_job_event host.parses_uuid inner initial_event (some job)
    next_sequence ← ok_or (checked_add inner.next_event_sequence 1) sequence_overflow
    let event = record initial_event { sequence_number = next_sequence }
    ok (record {
      inner = with_event (with_job inner (latest job event)) initial_event next_sequence;
      result = event;
      events = event ∷ [];
    })

  unfoldable pub append_job_event_draft : JobEvent → InMemoryInner → StoreResult (Draft JobEvent)
  append_job_event_draft event inner = do
    validate_new_job_event host.parses_uuid inner event none
    appended ← append_event_locked inner event
    ok (record { inner = appended.0; result = appended.1; events = appended.1 ∷ [] })

  unfoldable pub append_job_event_and_update_job_draft :
      JobRecord → JobEvent → InMemoryInner → StoreResult (Draft JobEvent)
  unfolding with_job
  append_job_event_and_update_job_draft job event inner = do
    validate_job_update inner job event
    validate_new_job_event host.parses_uuid inner event none
    appended ← append_event_locked inner event
    ok (record {
      inner = with_job appended.0 (latest job event);
      result = appended.1;
      events = appended.1 ∷ [];
    })

  unfoldable pub append_job_events_and_update_job_draft :
      JobRecord
      → JobEvent
      → JobRecord
      → JobEvent
      → InMemoryInner
      → StoreResult (Draft (JobEvent × JobEvent))
  unfolding with_job
  append_job_events_and_update_job_draft first_record first_event final_record final_event inner =
      do
        validate_sibling_event_ids_are_unique first_event final_event
        validate_two_stage_job_update_identity first_record first_event final_record final_event
        validate_job_update inner first_record first_event
        validate_new_job_event host.parses_uuid inner first_event none
        validate_job_update_against (latest first_record first_event) final_record final_event
        validate_new_job_event host.parses_uuid inner final_event none
        capacity ← ensure_event_sequence_capacity inner 2
        first ← append_event_locked inner first_event
        final ← append_event_locked first.0 final_event
        ok (record {
          inner = with_job final.0 (latest final_record final_event);
          result = (first.1, final.1);
          events = first.1 ∷ final.1 ∷ [];
        })

  unfoldable pub create_job_with_initial_event :
      JobRecord → JobEvent → InMemoryInner → StoreResult JobEvent × InMemoryInner
  create_job_with_initial_event job initial_event =
      mutate_with_published_events host (create_job_draft job initial_event)

  unfoldable pub append_job_event : JobEvent → InMemoryInner → StoreResult JobEvent × InMemoryInner
  append_job_event event = mutate_with_published_events host (append_job_event_draft event)

  unfoldable pub append_job_event_and_update_job :
      JobRecord → JobEvent → InMemoryInner → StoreResult JobEvent × InMemoryInner
  append_job_event_and_update_job job event =
      mutate_with_published_events host (append_job_event_and_update_job_draft job event)

  unfoldable pub append_job_events_and_update_job :
      JobRecord
      → JobEvent
      → JobRecord
      → JobEvent
      → InMemoryInner
      → StoreResult (JobEvent × JobEvent) × InMemoryInner
  append_job_events_and_update_job first_record first_event final_record final_event =
      mutate_with_published_events host
        (append_job_events_and_update_job_draft first_record first_event final_record final_event)
