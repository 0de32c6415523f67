-- ===== src/Store/Snapshot/Tests.antt =====
-- A snapshot of a repository with three jobs.
use atelia_secretary.Domain.Policy.{PolicyDecision}
use atelia_secretary.Base.{
  nat_discrete, ◌==◌, ℕ, ◌≡◌, refl, none, some, [], ◌∷◌, String, ok, select, values, ◌>>=◌,
  option_eq, nat_eq, string_eq, string_discrete, string_ord,
}
use atelia_secretary.Domain.Repository.{agent}
use atelia_secretary.Domain.Job.{JobKind, JobRecord, running, not_requested}
use atelia_secretary.Store.State.{default_inner, InMemoryInner}
use atelia_secretary.Store.Snapshot.{
  ProjectStatusSnapshot, project_status_snapshot, latest_in, sort_recent, insert_sorted,
  goes_before, latest_job_event_for_repository_with_inner,
}
use atelia_secretary.Store.Snapshot.Recent.{AreMostRecent, project_status_snapshot-AreMostRecent}

abbrev job_at : String → ℕ → String → JobRecord
job_at id at repository_id = record {
  id = id;
  schema_version = 1;
  created_at = 6;
  updated_at = at;
  started_at = some 8;
  completed_at = none;
  requester = agent "a" none;
  repository_id = repository_id;
  kind = JobKind.read;
  goal = none;
  status = running;
  policy_summary = none;
  cancellation_state = not_requested;
  latest_event_id = none;
  redactions = [];
}

abbrev inner : InMemoryInner
inner = record default_inner {
  jobs =
      ("job_1", job_at "job_1" 8 "repo_1")
      ∷ ("job_2", job_at "job_2" 30 "repo_2")
      ∷ ("job_3", job_at "job_3" 9 "repo_1")
      ∷ ("job_4", job_at "job_4" 9 "repo_1")
      ∷ [];
}

abbrev shown : ProjectStatusSnapshot
shown = record {
  recent_jobs = job_at "job_4" 9 "repo_1" ∷ job_at "job_3" 9 "repo_1" ∷ [];
  recent_policy_decisions = [];
  latest_event = none;
}

snapshot_shown : project_status_snapshot inner "repo_1" 2 5 ≡ ok shown
unfolding project_status_snapshot latest_job_event_for_repository_with_inner latest_in sort_recent
    insert_sorted goes_before ◌>>=◌ string_discrete nat_discrete
snapshot_shown = refl

project_status_snapshot-AreMostRecent_example :
    AreMostRecent
      (λ (j : JobRecord). j.updated_at)
      (λ (j : JobRecord). j.id)
      2
      (select (λ (j : JobRecord). j.repository_id == "repo_1") (values inner.jobs))
      shown.recent_jobs
    × AreMostRecent
        (λ (d : PolicyDecision). d.created_at)
        (λ (d : PolicyDecision). d.id)
        5
        (select
          (λ (d : PolicyDecision). d.repository_id == "repo_1")
          (values inner.policy_decisions))
        shown.recent_policy_decisions
project_status_snapshot-AreMostRecent_example =
    project_status_snapshot-AreMostRecent inner "repo_1" 2 5 shown snapshot_shown
