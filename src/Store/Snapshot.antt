-- ===== src/Store/Snapshot.antt =====
-- The recent jobs, decisions and latest event of a repository, `project_status_snapshot` of
-- crates/atelia-core/src/store.rs.
pub mod Recent
pub mod Tests
use atelia_secretary.Base.{
  String, ℕ, Bool, ◌&&◌, ◌||◌, Option, none, some, List, [], ◌∷◌, ◌++◌, ◌==◌, values, select, take,
  get, Assoc, ok, ◌>>=◌, ok_or, ltb, if◌then◌else◌, string_eq, nat_eq, option_eq, Ord, string_ord,
}
use atelia_secretary.Domain.Time.{LedgerTimestamp}
use atelia_secretary.Domain.Ids.{RepositoryId, JobEventId}
use atelia_secretary.Domain.Job.{JobRecord}
use atelia_secretary.Domain.Policy.{PolicyDecision}
use atelia_secretary.Domain.Event.{JobEvent}
use atelia_secretary.Store.State.{StoreResult, InMemoryInner, conflict}
use atelia_secretary.Store.Publish.{event_repository_id}

pub record ProjectStatusSnapshot : Type 0 where
  pub recent_jobs : List JobRecord
  pub recent_policy_decisions : List PolicyDecision
  pub latest_event : Option JobEvent

module _ {R : Type 0} (time : R → LedgerTimestamp) (id : R → String) where
  -- The comparison of the sort: a record goes before another if its time is later, or the same with
  -- a greater identifier.
  unfoldable pub goes_before : R → R → Bool
  goes_before left right =
      ltb (time right) (time left)
      || (time left == time right && string_ord.lt (id right) (id left))

  -- A record goes after those that go before it, and before those that are equal: in a stable sort
  -- that takes the records from the last.
  unfoldable pub insert_sorted : R → List R → List R
  insert_sorted r [] = r ∷ []
  insert_sorted r (s ∷ rs) =
      let rest = insert_sorted r rs in if goes_before s r then s ∷ rest else r ∷ s ∷ rs

  -- `sort_by`
  unfoldable pub sort_recent : List R → List R
  sort_recent [] = []
  sort_recent (r ∷ rs) = insert_sorted r (sort_recent rs)

abbrev pub recent_jobs_of : InMemoryInner → RepositoryId → List JobRecord
recent_jobs_of inner repository_id =
    sort_recent (λ (j : JobRecord). j.updated_at) (λ (j : JobRecord). j.id)
      (select (λ (j : JobRecord). j.repository_id == repository_id) (values inner.jobs))

abbrev pub recent_policy_decisions_of : InMemoryInner → RepositoryId → List PolicyDecision
recent_policy_decisions_of inner repository_id =
    sort_recent (λ (d : PolicyDecision). d.created_at) (λ (d : PolicyDecision). d.id)
      (select (λ (d : PolicyDecision). d.repository_id == repository_id)
        (values inner.policy_decisions))

-- The loop over the index of events, from its end: what it finds in the rest of the index, which
-- comes later, goes first.
unfoldable pub latest_in :
    InMemoryInner → RepositoryId → Assoc ℕ JobEventId → StoreResult (Option JobEvent)
latest_in inner repository_id [] = ok none
latest_in inner repository_id ((sequence, event_id) ∷ entries) = do
  later ← latest_in inner repository_id entries
  elim later [
    | some event ↦ ok (some event)
    | none ↦ do
      event ←
          ok_or (get inner.job_events_by_id event_id)
            (conflict "job_events" "sequence index references missing event {}")
      repository ← event_repository_id inner event
      ok (if repository == some repository_id then some event else none)
  ]

unfoldable pub latest_job_event_for_repository_with_inner :
    InMemoryInner → RepositoryId → StoreResult (Option JobEvent)
unfolding latest_in
latest_job_event_for_repository_with_inner inner repository_id =
    latest_in inner repository_id inner.job_events_by_sequence

unfoldable pub project_status_snapshot :
    InMemoryInner → RepositoryId → ℕ → ℕ → StoreResult ProjectStatusSnapshot
unfolding sort_recent
project_status_snapshot inner repository_id recent_job_limit recent_policy_decision_limit = do
  latest_event ← latest_job_event_for_repository_with_inner inner repository_id
  ok (record {
    recent_jobs = take recent_job_limit (recent_jobs_of inner repository_id);
    recent_policy_decisions =
        take recent_policy_decision_limit (recent_policy_decisions_of inner repository_id);
    latest_event = latest_event;
  })
