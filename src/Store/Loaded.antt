-- ===== src/Store/Loaded.antt =====
-- The check of the ledger of a snapshot that is loaded, `validate_loaded_job_event_sequence` of
-- crates/atelia-core/src/store.rs.
pub mod Sound
pub mod Tests
use atelia_secretary.Domain.Time.{u64_max}
use atelia_secretary.Domain.Ids.{JobEventId}
use atelia_secretary.Store.State.{StoreResult, InMemoryInner}
use atelia_secretary.Base.{
  ◌+◌, ok, option_eq, nat_eq, string_eq, ltb, if◌then◌else◌, Bool, Assoc, List, Eq, String, ℕ,
}
use atelia_secretary.Base.{
  String, ℕ, ◌+◌, ◌-◌, Bool, none, List, [], ◌∷◌, Assoc, Eq, ◌==◌, ◌!=◌, get, contains, length, ok,
  ◌>>◌, ◌>>=◌, reject_if, ok_or, ltb, if◌then◌else◌, string_eq, nat_eq,
}
use atelia_secretary.Domain.Time.{u64_max}
use atelia_secretary.Domain.Ids.{JobEventId}
use atelia_secretary.Store.State.{StoreResult, InMemoryInner, conflict, invalid_record}
use atelia_secretary.Store.EventRefs.{validate_new_job_event}

-- `remove` of a map
unfoldable pub remove : {K V : Type 0} → ⦃e : Eq K⦄ → Assoc K V → K → Assoc K V
remove [] k = []
remove ((j, v) ∷ m) k = let rest = remove m k in if j == k then rest else (j, v) ∷ rest

-- `saturating_add(1)` on a u64
abbrev pub next_sequence : ℕ → ℕ
next_sequence n = if ltb n u64_max then n + 1 else u64_max

-- What the loop carries: the number expected, the identifiers seen, and the copy of the store from
-- which the events that are checked are taken out.
pub record LoadedSequence : Type 0 where
  pub expected_sequence : ℕ
  pub seen_event_ids : List JobEventId
  pub validated : InMemoryInner

-- The store without an event.
unfoldable pub without_event : InMemoryInner → JobEventId → ℕ → InMemoryInner
unfolding remove
without_event validated event_id sequence_number = record validated {
  job_events_by_id = remove validated.job_events_by_id event_id;
  job_events_by_sequence = remove validated.job_events_by_sequence sequence_number;
}

module _ (parses_uuid : String → Bool) (inner : InMemoryInner) where
  -- The body of the loop over the index.
  unfoldable pub loaded_step : LoadedSequence → ℕ → JobEventId → StoreResult LoadedSequence
  unfolding without_event
  loaded_step s sequence_number event_id = do
    reject_if (sequence_number != s.expected_sequence)
        (invalid_record "job_events" "sequence ledger has gap: expected {}, found {}")
    reject_if (contains s.seen_event_ids event_id)
        (conflict "job_events" "sequence index references duplicate event id {}")
    event ←
        ok_or (get inner.job_events_by_id event_id)
          (conflict "job_events" "sequence index references missing id {}")
    reject_if (event.sequence_number != sequence_number)
        (invalid_record "job_events" "event {} stores sequence {} but ledger index says {}")
    validate_new_job_event parses_uuid (without_event s.validated event_id sequence_number) event
        none
    ok (record {
      expected_sequence = next_sequence s.expected_sequence;
      seen_event_ids = event_id ∷ s.seen_event_ids;
      validated = without_event s.validated event_id sequence_number;
    })

  unfoldable pub loaded_loop : LoadedSequence → Assoc ℕ JobEventId → StoreResult LoadedSequence
  unfolding loaded_step
  loaded_loop s [] = ok s
  loaded_loop s ((sequence_number, event_id) ∷ entries) = do
    after ← loaded_step s sequence_number event_id
    loaded_loop after entries

  unfoldable pub validate_loaded_job_event_sequence : StoreResult (Unit {0})
  unfolding loaded_loop
  validate_loaded_job_event_sequence = do
    s ←
        loaded_loop (record { expected_sequence = 1; seen_event_ids = []; validated = inner })
          inner.job_events_by_sequence
    reject_if (s.expected_sequence - 1 != inner.next_event_sequence)
        (invalid_record "job_events" "next_event_sequence {} does not match retained sequence {}")
    reject_if (length s.seen_event_ids != length inner.job_events_by_id)
        (invalid_record "job_events" "sequence index and id index disagree on event count")
