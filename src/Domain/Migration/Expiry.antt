-- ===== src/Domain/Migration/Expiry.antt =====
-- When a migration lock is held, and that its deadline cannot wrap, crates/atelia-core/src/domain.rs.
use atelia_secretary.Base.{ltb, ◌>>=◌, ◌>>◌, ℕ, String, ◌≤◌, ◌<◌, ◌≡◌, Bool, not, ok, arith}
use atelia_secretary.Domain.Time.{LedgerTimestamp, i64_max}
use atelia_secretary.Domain.Migration.{
  MigrationLockRecord, held, expires_at, is_active, is_expired, new_lock_record,
}

-- A held lock is active exactly until it is expired.
pub is_active-not-is_expired :
    (lock : MigrationLockRecord) (at : LedgerTimestamp)
    → lock.status ≡ held
    → is_active lock at ≡ not (is_expired lock at)
unfolding is_active is_expired
is_active-not-is_expired lock at h = ground arith

-- A lock that `new_lock_record` makes before the last representable moment has a deadline that is
-- later than its start and representable, and it is active exactly before that deadline.
pub new_lock_record-is_active :
    (leader_id : String) (safe : Bool) (timeout_millis : ℕ) (locked_at at : LedgerTimestamp)
    {lock : MigrationLockRecord}
    → new_lock_record leader_id safe timeout_millis locked_at ≡ ok lock
    → locked_at < i64_max
    → (locked_at < expires_at lock)
      × (expires_at lock ≤ i64_max)
      × (is_active lock at ≡ ltb at (expires_at lock))
unfolding ◌>>=◌ ◌>>◌ new_lock_record is_active expires_at
new_lock_record-is_active leader_id safe timeout_millis locked_at at e h = ground arith
