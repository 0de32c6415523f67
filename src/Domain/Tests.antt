-- ===== src/Domain/Tests.antt =====
-- Jobs and locks on concrete values, crates/atelia-core/src/domain.rs.
use atelia_secretary.Domain.Migration.Expiry.{new_lock_record-is_active, is_active-not-is_expired}
use atelia_secretary.Domain.Time.{i64_max, LedgerTimestamp}
use atelia_secretary.Domain.Lock.Reclaim.{reclaim-true, reclaim_twice, reclaim-is_ok_iff}
use atelia_secretary.Domain.Job.Lifecycle.{
  new_job-IsWellFormed, advance-SameOutcome, advance-IsWellFormed, SameOutcome, advance,
  IsWellFormed,
}
use atelia_secretary.Domain.Migration.{is_expired, new_lock_record, is_active}
use atelia_secretary.Base.{
  ◌↔◌, is_ok, string_discrete, ltb, ◌≤◌, ◌⊎◌, false, ◌<◌, nat_discrete, not, ◌>>◌, ◌≡◌, refl, none,
  some, List, [], ◌∷◌, true, ok, arith,
}
use atelia_secretary.Domain.Repository.{Actor}
use atelia_secretary.Domain.Job.{
  is_terminal, JobStatus, JobRecord, JobKind, running, succeeded, failed, not_requested, new_job,
}
use atelia_secretary.Domain.Lock.{
  expired, LockOwner-discrete, LockDecision, LockOwner, LockedScope, held, reclaimed, reclaim,
}
use atelia_secretary.Domain.Migration as Migration

abbrev a_job : JobRecord
a_job = record {
  id = "job_1";
  schema_version = 1;
  created_at = 5;
  updated_at = 9;
  started_at = some 7;
  completed_at = some 9;
  requester = Actor.system "daemon";
  repository_id = "repo_1";
  kind = JobKind.mutate;
  goal = none;
  status = succeeded;
  policy_summary = none;
  cancellation_state = not_requested;
  latest_event_id = none;
  redactions = [];
}

abbrev requests : List (JobStatus × LedgerTimestamp)
requests = (running, 10) ∷ (succeeded, 11) ∷ (failed, 12) ∷ []

advance-SameOutcome_example : SameOutcome a_job (advance a_job requests)
unfolding is_terminal
advance-SameOutcome_example = advance-SameOutcome a_job requests refl refl

abbrev submitted : JobRecord
submitted = new_job "job_1" (Actor.system "daemon") "repo_1" JobKind.read none 5

advance-IsWellFormed_example : IsWellFormed (advance submitted requests)
advance-IsWellFormed_example =
    advance-IsWellFormed submitted requests
      (new_job-IsWellFormed "job_1" (Actor.system "daemon") "repo_1" JobKind.read none 5)

abbrev a_lock : LockDecision
a_lock = record {
  id = "lock_1";
  schema_version = 1;
  created_at = 5;
  updated_at = 5;
  repository_id = "repo_1";
  policy_decision_id = "pol_1";
  owner = LockOwner.job "job_1";
  locked_scope = LockedScope.repository;
  locked_at = 5;
  expires_at = 20;
  released_at = none;
  reclaimed_at = none;
  status = held;
  redactions = [];
}

abbrev a_reclaimed_lock : LockDecision
a_reclaimed_lock = record a_lock { status = reclaimed; reclaimed_at = some 25; updated_at = 25 }

reclaim-true_example :
    (LockOwner.job "job_1" ≡ LockOwner.job "job_1")
    × ((held ≡ held) ⊎ (held ≡ expired))
    × (20 ≤ 25)
    × (5 ≤ 25)
    × (reclaimed ≡ reclaimed)
    × (a_reclaimed_lock.reclaimed_at ≡ some 25)
    × (a_reclaimed_lock.updated_at ≡ 25)
unfolding reclaim ◌>>◌ LockOwner-discrete string_discrete
reclaim-true_example = reclaim-true a_lock a_reclaimed_lock (LockOwner.job "job_1") 25 refl

reclaim-is_ok_iff_example : (is_ok (reclaim a_lock (LockOwner.job "job_1") 25) ≡ true) ↔ (
    (LockOwner.job "job_1" ≡ a_lock.owner)
    × ((a_lock.status ≡ reclaimed)
        ⊎ (((a_lock.status ≡ held) ⊎ (a_lock.status ≡ expired))
            × (a_lock.expires_at ≤ 25)
            × (a_lock.updated_at ≤ 25))))
reclaim-is_ok_iff_example = reclaim-is_ok_iff a_lock (LockOwner.job "job_1") 25

reclaim_twice_example :
    reclaim a_reclaimed_lock (LockOwner.job "job_1") 40 ≡ ok (a_reclaimed_lock, false)
unfolding reclaim ◌>>◌ LockOwner-discrete string_discrete
reclaim_twice_example =
    reclaim_twice a_lock a_reclaimed_lock (LockOwner.job "job_1") 25 40 true refl

abbrev a_migration_lock : Migration.MigrationLockRecord
a_migration_lock = record {
  status = Migration.held;
  leader_id = "leader";
  safe = true;
  locked_at = 5;
  timeout_millis = 100;
  released_at = none;
}

is_active-not-is_expired_example :
    is_active a_migration_lock 50 ≡ not (is_expired a_migration_lock 50)
is_active-not-is_expired_example = is_active-not-is_expired a_migration_lock 50 refl

new_lock_record-is_active_example :
    (5 < Migration.expires_at a_migration_lock)
    × (Migration.expires_at a_migration_lock ≤ i64_max)
    × (is_active a_migration_lock 50 ≡ ltb 50 (Migration.expires_at a_migration_lock))
unfolding new_lock_record ◌>>◌ nat_discrete
new_lock_record-is_active_example =
    new_lock_record-is_active "leader" true 100 5 50 refl (omega arith)
