-- ===== src/Domain/Migration.antt =====
-- Schema migrations and the migration lock, crates/atelia-core/src/domain.rs.
pub mod Expiry
use atelia_secretary.Base.{
  String, ℕ, Bool, true, false, ◌&&◌, ◌+◌, min, Option, none, some, List, [], Eq, ◌==◌, Result, ok,
  err, ◌>>=◌, ◌>>◌, reject_if, ltb, leb, is_some, nat_eq, string_eq,
}
use atelia_secretary.Domain.Time.{LedgerTimestamp, i64_max}
use atelia_secretary.Domain.Ids.{SchemaMigrationId}
use atelia_secretary.Domain.Repository.{RedactionMarker, domain_schema_version}

pub data SchemaMigrationStatus : Type 0 where
  applied failed : SchemaMigrationStatus

abbrev pub migration_lock_record_name : String
migration_lock_record_name = "migration_lock"

pub data MigrationLockStatus : Type 0 where
  held released expired : MigrationLockStatus

unfoldable pub MigrationLockStatus-discrete : Discrete MigrationLockStatus
MigrationLockStatus-discrete = hlevel

instance abbrev pub lock_status_eq : Eq MigrationLockStatus
lock_status_eq = record { dec = MigrationLockStatus-discrete }

pub record MigrationLockRecord : Type 0 where
  pub status : MigrationLockStatus
  pub leader_id : String
  pub safe : Bool
  pub locked_at : LedgerTimestamp
  pub timeout_millis : ℕ
  pub released_at : Option LedgerTimestamp

pub data SchemaMigrationRecordError : Type 0 where
  non_positive_timeout : SchemaMigrationRecordError

-- `MigrationLockRecord::new`
unfoldable pub new_lock_record :
    String → Bool → ℕ → LedgerTimestamp → Result SchemaMigrationRecordError MigrationLockRecord
new_lock_record leader_id safe timeout_millis locked_at = do
  reject_if (timeout_millis == 0) non_positive_timeout
  ok (record {
    status = held;
    leader_id = leader_id;
    safe = safe;
    locked_at = locked_at;
    timeout_millis = timeout_millis;
    released_at = none;
  })

-- The sum is taken in i128, where it cannot overflow, and then clamped to i64::MAX.
unfoldable pub expires_at : MigrationLockRecord → LedgerTimestamp
expires_at lock = min (lock.locked_at + lock.timeout_millis) i64_max

unfoldable pub is_active : MigrationLockRecord → LedgerTimestamp → Bool
unfolding expires_at
is_active lock at = lock.status == held && ltb at (expires_at lock)

unfoldable pub is_expired : MigrationLockRecord → LedgerTimestamp → Bool
unfolding expires_at
is_expired lock at = leb (expires_at lock) at

pub record SchemaMigrationRecord : Type 0 where
  pub id : SchemaMigrationId
  pub schema_version : ℕ
  pub created_at : LedgerTimestamp
  pub updated_at : LedgerTimestamp
  pub migration_name : String
  pub migration_version : ℕ
  pub status : SchemaMigrationStatus
  pub leader_id : Option String
  pub migration_lock : Option MigrationLockRecord
  pub notes : Option String
  pub redactions : List RedactionMarker

-- `SchemaMigrationRecord::new_migration_lock`; the fresh identifier is the first argument.
unfoldable pub new_migration_lock :
    SchemaMigrationId
    → String
    → LedgerTimestamp
    → Bool
    → ℕ
    → Result SchemaMigrationRecordError SchemaMigrationRecord
unfolding new_lock_record
new_migration_lock id leader_id locked_at safe timeout_millis = do
  migration_lock ← new_lock_record leader_id safe timeout_millis locked_at
  ok (record {
    id = id;
    schema_version = domain_schema_version;
    created_at = locked_at;
    updated_at = locked_at;
    migration_name = migration_lock_record_name;
    migration_version = 1;
    status = applied;
    leader_id = some migration_lock.leader_id;
    migration_lock = some migration_lock;
    notes = none;
    redactions = [];
  })

unfoldable pub is_migration_lock : SchemaMigrationRecord → Bool
is_migration_lock r = r.migration_name == migration_lock_record_name && is_some r.migration_lock
