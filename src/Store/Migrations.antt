-- ===== src/Store/Migrations.antt =====
-- Schema migrations and the migration lock, crates/atelia-core/src/store.rs.
use Prim.Native.Nat.{Ordering}
use Prim.Native.String.{compare}
use atelia_secretary.Base.{
  String, ℕ, Bool, true, false, not, ◌&&◌, ◌||◌, Option, none, some, List, [], ◌∷◌, Assoc, ◌==◌,
  ◌!=◌, get, insert, values, map_values, select, ok, err, ◌>>=◌, ◌>>◌, reject_if, ok_or, map_err,
  ltb, max, if◌then◌else◌, is_some, is_blank, string_eq, nat_eq, option_eq,
}
use atelia_secretary.Domain.Time.{LedgerTimestamp}
use atelia_secretary.Domain.Ids.{SchemaMigrationId}
use atelia_secretary.Domain.Migration.{
  SchemaMigrationRecord, MigrationLockRecord, held, released, expired, lock_status_eq, is_active,
  is_expired, is_migration_lock, migration_lock_record_name, new_migration_lock,
}
use atelia_secretary.Store.State.{
  StoreError, StoreResult, InMemoryInner, not_found, conflict, invalid_record,
}
use atelia_secretary.Store.Checks.{insert_record}
use atelia_secretary.Store.Mutate.{Host, Draft, mutate}

invalid_migration : String → StoreError
invalid_migration reason = invalid_record "schema_migrations" reason

-- The checks of a lock that is released or expired.
validate_closed : Option LedgerTimestamp → SchemaMigrationRecord → StoreResult (Unit {0})
unfolding invalid_migration
validate_closed none r = err (invalid_migration "lock released/expired records require released_at")
validate_closed (some released_at) r = do
  reject_if (ltb released_at r.created_at)
      (invalid_migration "lock released_at must not be earlier than created_at")
  reject_if (ltb r.updated_at released_at)
      (invalid_migration "lock updated_at must not be earlier than released_at")

unfoldable pub validate_lock_metadata : SchemaMigrationRecord → StoreResult (Unit {0})
unfolding validate_closed
validate_lock_metadata r = do
  leader ← ok_or r.leader_id (invalid_migration "migration_lock records require leader_id")
  lock ←
      ok_or r.migration_lock
        (invalid_migration "migration_lock record requires migration_lock metadata")
  reject_if (lock.timeout_millis == 0)
      (invalid_migration "schema migration lock timeout_millis must be greater than zero")
  reject_if (is_blank lock.leader_id)
      (invalid_migration "schema migration lock leader_id must not be blank")
  reject_if (leader != lock.leader_id)
      (invalid_migration "migration_lock record leader_id must match migration_lock.leader_id")
  reject_if (r.created_at != lock.locked_at)
      (invalid_migration "lock held record created_at must equal locked_at")
  if lock.status == held
      then reject_if (is_some lock.released_at)
          (invalid_migration "lock held records cannot have released_at")
      else validate_closed lock.released_at r

blank_leader : Option String → Bool
blank_leader none = false
blank_leader (some leader_id) = is_blank leader_id

unfoldable pub validate_schema_migration_record : SchemaMigrationRecord → StoreResult (Unit {0})
unfolding validate_lock_metadata blank_leader
validate_schema_migration_record r = do
  reject_if (is_blank r.migration_name) (invalid_migration "migration_name must not be empty")
  reject_if (blank_leader r.leader_id) (invalid_migration "leader_id must not be blank")
  reject_if (ltb r.updated_at r.created_at)
      (invalid_migration "updated_at must not be earlier than created_at")
  if r.migration_name == migration_lock_record_name
      then validate_lock_metadata r
      else reject_if (is_some r.migration_lock)
          (invalid_migration "non-lock migration records cannot include migration_lock metadata")

-- The lock of a record that has run out is closed.
unfoldable pub expire_record :
    LedgerTimestamp → Option MigrationLockRecord → SchemaMigrationRecord → SchemaMigrationRecord
expire_record now none r = r
expire_record now (some lock) r =
    if lock.status == held && is_expired lock now
    then record r {
      migration_lock =
          some (record lock { status = expired; released_at = some (max now r.updated_at) });
      updated_at = max now r.updated_at;
    }
    else r

unfoldable pub expire_schema_migration_locks : InMemoryInner → LedgerTimestamp → InMemoryInner
unfolding expire_record
expire_schema_migration_locks inner now = record inner {
  schema_migrations =
      map_values (λ r. expire_record now r.migration_lock r) inner.schema_migrations;
}

-- The order of `max_by`: by creation, then by identifier.
later_lock : SchemaMigrationRecord → SchemaMigrationRecord → Bool
later_lock left right =
    ltb right.created_at left.created_at
    || (left.created_at == right.created_at
        && elim (compare left.id right.id) [ Ordering.gt ↦ true | _ ↦ false ])

-- `max_by`, which keeps the last of equal elements.
unfoldable pub most_recent : List SchemaMigrationRecord → Option SchemaMigrationRecord
unfolding later_lock
most_recent [] = none
most_recent (r ∷ records) = elim (most_recent records) [
  | none ↦ some r
  | some best ↦ if later_lock r best then some r else some best
]

holds_active : LedgerTimestamp → Option MigrationLockRecord → Bool
holds_active at none = false
holds_active at (some lock) = is_active lock at

unfoldable pub is_active_lock_record : LedgerTimestamp → SchemaMigrationRecord → Bool
unfolding holds_active
is_active_lock_record at r = is_migration_lock r && holds_active at r.migration_lock

unfoldable pub active_migration_lock :
    InMemoryInner → LedgerTimestamp → Option SchemaMigrationRecord
unfolding is_active_lock_record
active_migration_lock inner at =
    most_recent (select (λ r. is_active_lock_record at r) (values inner.schema_migrations))

leader_of : Option MigrationLockRecord → String
leader_of none = "<unknown>"
leader_of (some lock) = lock.leader_id

already_held : StoreError
already_held = conflict "schema_migrations" "active migration lock {} already held by {}"

-- While a lock is active, only its leader writes, and nobody writes another lock.
unfoldable pub admit_write :
    Option SchemaMigrationRecord → SchemaMigrationRecord → StoreResult (Unit {0})
unfolding leader_of already_held
admit_write none r = ok tt
admit_write (some active) r = do
  reject_if (is_migration_lock r) already_held
  reject_if (r.leader_id != some (leader_of active.migration_lock)) already_held

write_time : Option MigrationLockRecord → SchemaMigrationRecord → LedgerTimestamp
write_time none r = r.updated_at
write_time (some lock) r = lock.locked_at

abbrev with_migrations :
    InMemoryInner → Assoc SchemaMigrationId SchemaMigrationRecord → InMemoryInner
with_migrations inner migrations = record inner { schema_migrations = migrations }

unfoldable pub create_schema_migration_draft :
    SchemaMigrationRecord → InMemoryInner → StoreResult (Draft (Unit {0}))
unfolding write_time
create_schema_migration_draft r inner = do
  let write_at = write_time r.migration_lock r
  let current = expire_schema_migration_locks inner write_at
  admit_write (active_migration_lock current write_at) r
  migrations ← insert_record current.schema_migrations r.id r "schema_migrations"
  ok (record { inner = with_migrations current migrations; result = tt; events = [] })

-- The fresh identifier of the new record is an argument.
unfoldable pub acquire_schema_migration_lock_draft :
    SchemaMigrationId
    → String
    → Bool
    → ℕ
    → LedgerTimestamp
    → InMemoryInner
    → StoreResult (Draft SchemaMigrationRecord)
unfolding already_held
acquire_schema_migration_lock_draft id leader_id safe timeout_millis locked_at inner = do
  let current = expire_schema_migration_locks inner locked_at
  reject_if (is_some (active_migration_lock current locked_at)) already_held
  r ←
      map_err (λ _. invalid_record "schema_migrations" "timeout_millis validated above")
        (new_migration_lock id leader_id locked_at safe timeout_millis)
  migrations ← insert_record current.schema_migrations r.id r "schema_migrations"
  ok (record { inner = with_migrations current migrations; result = r; events = [] })

unfoldable pub get_schema_migration_lock_draft :
    LedgerTimestamp → InMemoryInner → StoreResult (Draft (Option SchemaMigrationRecord))
get_schema_migration_lock_draft now inner =
    let current = expire_schema_migration_locks inner now in
    ok (record {
      inner = current;
      result = most_recent (select is_migration_lock (values current.schema_migrations));
      events = [];
    })

-- What `release_schema_migration_lock` makes of the record that it finds.
unfoldable pub release_record :
    String
    → LedgerTimestamp
    → SchemaMigrationRecord
    → MigrationLockRecord
    → StoreResult SchemaMigrationRecord
unfolding invalid_migration
release_record leader_id released_at r lock = do
  reject_if (lock.leader_id != leader_id)
      (conflict "schema_migrations" "migration lock leader_id mismatch")
  if lock.status == released then ok r else do
    reject_if (lock.status == expired)
        (conflict "schema_migrations" "migration lock is already expired")
    reject_if (ltb released_at lock.locked_at)
        (invalid_migration "released_at must not be earlier than locked_at")
    ok (record r {
      migration_lock = some (record lock { status = released; released_at = some released_at });
      updated_at = max released_at r.updated_at;
    })

unfoldable pub release_schema_migration_lock_draft :
    SchemaMigrationId
    → String
    → LedgerTimestamp
    → InMemoryInner
    → StoreResult (Draft SchemaMigrationRecord)
unfolding invalid_migration
release_schema_migration_lock_draft id leader_id released_at inner = do
  let current = expire_schema_migration_locks inner released_at
  r ← ok_or (get current.schema_migrations id) (not_found "schema_migrations" id)
  reject_if (not (is_migration_lock r)) (invalid_migration "{} is not a migration lock")
  lock ← ok_or r.migration_lock (invalid_migration "{} is not a migration lock")
  after ← release_record leader_id released_at r lock
  ok (record {
    inner = with_migrations current (insert current.schema_migrations id after);
    result = after;
    events = [];
  })

module _ (host : Host) where
  unfoldable pub create_schema_migration :
      SchemaMigrationRecord → InMemoryInner → StoreResult (Unit {0}) × InMemoryInner
  create_schema_migration r inner = elim (validate_schema_migration_record r) [
    | ok _ ↦ mutate host (create_schema_migration_draft r) inner
    | err e ↦ (err e, inner)
  ]

  unfoldable pub acquire_schema_migration_lock :
      SchemaMigrationId
      → String
      → Bool
      → ℕ
      → LedgerTimestamp
      → InMemoryInner
      → StoreResult SchemaMigrationRecord × InMemoryInner
  unfolding invalid_migration
  acquire_schema_migration_lock id leader_id safe timeout_millis locked_at inner =
      if is_blank leader_id
      then (err (invalid_migration "leader_id must not be blank"), inner)
      else if timeout_millis == 0
      then (err (invalid_migration "timeout_millis must be greater than zero"), inner)
      else mutate host
          (acquire_schema_migration_lock_draft id leader_id safe timeout_millis locked_at) inner

  unfoldable pub get_schema_migration_lock :
      LedgerTimestamp → InMemoryInner → StoreResult (Option SchemaMigrationRecord) × InMemoryInner
  get_schema_migration_lock now = mutate host (get_schema_migration_lock_draft now)

  unfoldable pub release_schema_migration_lock :
      SchemaMigrationId
      → String
      → LedgerTimestamp
      → InMemoryInner
      → StoreResult SchemaMigrationRecord × InMemoryInner
  release_schema_migration_lock id leader_id released_at =
      mutate host (release_schema_migration_lock_draft id leader_id released_at)
