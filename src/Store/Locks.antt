-- ===== src/Store/Locks.antt =====
-- Lock decisions, crates/atelia-core/src/store.rs.
use atelia_secretary.Base.{
  Bool, true, false, not, ◌&&◌, ◌||◌, ◌==◌, ◌!=◌, [], get, insert, values, any, contains_key, ok,
  ◌>>=◌, ◌>>◌, reject_if, ok_or, ltb, leb, is_some, string_eq, nat_eq,
}
use atelia_secretary.Domain.Lock.{
  LockDecision, LockOwner, job, process, system, LockStatus, held, released, expired, reclaimed,
  scope_eq,
}
use atelia_secretary.Store.State.{
  StoreResult, InMemoryInner, not_found, duplicate_id, conflict, invalid_record,
}
use atelia_secretary.Store.Checks.{ensure_same_repository}
use atelia_secretary.Store.Mutate.{Host, Draft, mutate}

-- The test is on the `Debug` text of the status, which only `Held` meets.
unfoldable pub is_active_lock_status : LockStatus → Bool
is_active_lock_status held = true
is_active_lock_status released = false
is_active_lock_status expired = false
is_active_lock_status reclaimed = false

unfoldable pub no_terminal_timestamps : LockDecision → StoreResult (Unit {0})
no_terminal_timestamps lock =
    reject_if (is_some lock.released_at || is_some lock.reclaimed_at)
      (invalid_record "lock_decisions" "active or expired locks must not have terminal timestamps")

-- The `match record.status` of `validate_lock_decision_timing`.
unfoldable pub validate_status_timing : LockStatus → LockDecision → StoreResult (Unit {0})
unfolding no_terminal_timestamps
validate_status_timing held lock = no_terminal_timestamps lock
validate_status_timing expired lock = no_terminal_timestamps lock
validate_status_timing released lock = do
  released_at ←
      ok_or lock.released_at (invalid_record "lock_decisions" "released locks require released_at")
  reject_if (ltb released_at lock.locked_at || ltb lock.updated_at released_at)
      (invalid_record "lock_decisions" "released_at must be monotonic with lock timestamps")
validate_status_timing reclaimed lock = do
  reclaimed_at ←
      ok_or lock.reclaimed_at
        (invalid_record "lock_decisions" "reclaimed locks require reclaimed_at")
  reject_if (ltb reclaimed_at lock.expires_at || ltb lock.updated_at reclaimed_at)
      (invalid_record "lock_decisions" "reclaimed_at must be at or after expires_at and updated_at")

unfoldable pub validate_lock_decision_timing : LockDecision → StoreResult (Unit {0})
unfolding validate_status_timing
validate_lock_decision_timing lock = do
  reject_if (leb lock.expires_at lock.locked_at)
      (invalid_record "lock_decisions" "expires_at must be later than locked_at")
  reject_if (lock.created_at != lock.locked_at)
      (invalid_record "lock_decisions" "created_at must equal locked_at")
  reject_if (ltb lock.updated_at lock.locked_at)
      (invalid_record "lock_decisions" "updated_at must not be earlier than locked_at")
  reject_if (is_some lock.released_at && is_some lock.reclaimed_at)
      (invalid_record "lock_decisions" "released_at and reclaimed_at are mutually exclusive")
  validate_status_timing lock.status lock

-- A job that owns a lock is a job of the lock's repository.
unfoldable pub check_owner : InMemoryInner → LockDecision → LockOwner → StoreResult (Unit {0})
check_owner inner lock (job job_id) = do
  j ← ok_or (get inner.jobs job_id) (not_found "jobs" job_id)
  ensure_same_repository "lock_decisions" "lock_decision.owner" lock.repository_id j.repository_id
check_owner inner lock (process id) = ok tt
check_owner inner lock (system id) = ok tt

-- An active lock on the same scope of the same repository.
unfoldable pub covers : LockDecision → LockDecision → Bool
unfolding is_active_lock_status
covers lock existing =
    is_active_lock_status existing.status
    && existing.repository_id == lock.repository_id
    && existing.locked_scope == lock.locked_scope

unfoldable pub create_lock_decision_draft :
    LockDecision → InMemoryInner → StoreResult (Draft (Unit {0}))
unfolding covers
create_lock_decision_draft lock inner = do
  reject_if (contains_key inner.lock_decisions lock.id) (duplicate_id "lock_decisions" lock.id)
  validate_lock_decision_timing lock
  reject_if (not (contains_key inner.repositories lock.repository_id))
      (not_found "repositories" lock.repository_id)
  d ←
      ok_or (get inner.policy_decisions lock.policy_decision_id)
        (not_found "policy_decisions" lock.policy_decision_id)
  ensure_same_repository "lock_decisions" "lock_decision.policy_decision_id" lock.repository_id
      d.repository_id
  check_owner inner lock lock.owner
  reject_if
      (is_active_lock_status lock.status
        && any (λ existing. covers lock existing) (values inner.lock_decisions))
      (conflict "lock_decisions" "active lock {} already covers repository/scope")
  ok (record {
    inner = record inner { lock_decisions = insert inner.lock_decisions lock.id lock };
    result = tt;
    events = [];
  })

unfoldable pub create_lock_decision :
    Host → LockDecision → InMemoryInner → StoreResult (Unit {0}) × InMemoryInner
create_lock_decision host lock = mutate host (create_lock_decision_draft lock)
