-- ===== src/Store/Calls/Acquire.antt =====
-- When the migration lock can be acquired, crates/atelia-core/src/store.rs.
use atelia_secretary.Store.Checks.{insert_record}
use atelia_secretary.Domain.Repository.{domain_schema_version}
use atelia_secretary.Store.Migrations.{
  expire_schema_migration_locks, active_migration_lock, expire_record, is_active_lock_record,
  most_recent, acquire_schema_migration_lock_draft, acquire_schema_migration_lock,
}
use atelia_secretary.Store.State.{conflict, InMemoryInner}
use atelia_secretary.Domain.Time.{LedgerTimestamp, i64_max}
use atelia_secretary.Domain.Ids.{SchemaMigrationId}
use atelia_secretary.Store.Mutate.{mutate, Host}
use atelia_secretary.Domain.Migration.{
  new_lock_record, new_migration_lock, MigrationLockRecord, is_expired, is_active,
  is_migration_lock, lock_status_eq, migration_lock_record_name, SchemaMigrationRecord, applied,
  held,
}
use atelia_secretary.Store.Calls.Migrations.{is_held_lock, holds, none_active-none_held}
use atelia_secretary.Base.{
  true, ◌<◌, ◌+◌, min, ◌≢◌, Assoc, ◌∷◌, map_values, Option-cases, inl, inr, get-insert_self,
  get-insert, arith, Bool-cases, select, values, option_eq, get-map_values, get-map_values-none,
  eq→path, ltb→lt, ltb, is_blank, ℕ, Bool, String, [], ◌≡◌, refl, none, some, ok, err, false, get,
  insert, nat_eq, string_eq, ◌==◌, ◌>>=◌, ◌>>◌,
}

-- The record of the lock that is acquired.
abbrev pub acquired :
    SchemaMigrationId → String → Bool → ℕ → LedgerTimestamp → SchemaMigrationRecord
acquired id leader safe timeout at = record {
  id = id;
  schema_version = domain_schema_version;
  created_at = at;
  updated_at = at;
  migration_name = migration_lock_record_name;
  migration_version = 1;
  status = applied;
  leader_id = some leader;
  migration_lock = some (record {
    status = held;
    leader_id = leader;
    safe = safe;
    locked_at = at;
    timeout_millis = timeout;
    released_at = none;
  });
  notes = none;
  redactions = [];
}

-- A migration lock that is held, and whose deadline, clamped to the last moment, is not reached.
abbrev pub IsHeldAt : LedgerTimestamp → SchemaMigrationRecord → Type 0
IsHeldAt at r =
    (lock : MigrationLockRecord) × (r.migration_lock ≡ some lock)
    × (r.migration_name ≡ migration_lock_record_name)
    × (lock.status ≡ held)
    × (at < min (lock.locked_at + lock.timeout_millis) i64_max)

-- Every record has a property.
abbrev pub AllRecords :
    (SchemaMigrationRecord → Type 0) → Assoc SchemaMigrationId SchemaMigrationRecord → Type 0
AllRecords P [] = Unit
AllRecords P ((id, r) ∷ m) = P r × AllRecords P m

-- No migration lock but one is held, whether its time has run out or not.
abbrev pub IsOnlyHeld : SchemaMigrationId → Assoc SchemaMigrationId SchemaMigrationRecord → Type 0
IsOnlyHeld id m =
    (i : SchemaMigrationId) (r : SchemaMigrationRecord) (lock : MigrationLockRecord)
    → i ≢ id
    → get m i ≡ some r
    → r.migration_name ≡ migration_lock_record_name
    → r.migration_lock ≡ some lock
    → lock.status ≢ held

held-is_held_lock :
    (r : SchemaMigrationRecord) (lock : MigrationLockRecord)
    → r.migration_lock ≡ some lock
    → r.migration_name ≡ migration_lock_record_name
    → lock.status ≡ held
    → is_held_lock r ≡ true
unfolding is_held_lock is_migration_lock holds
held-is_held_lock r lock e name is_held = rw e (ground (arith, name, is_held))

still_held :
    (at : LedgerTimestamp) (r : SchemaMigrationRecord)
    → IsHeldAt at r
    → expire_record at r.migration_lock r ≡ r
unfolding expire_record is_expired
still_held at r (lock, e, name, is_held, before) = rw e (ground arith)

still_stored :
    (inner : InMemoryInner) (at : LedgerTimestamp) (i : SchemaMigrationId)
    (r : SchemaMigrationRecord)
    → get inner.schema_migrations i ≡ some r
    → IsHeldAt at r
    → get (map_values (λ r. expire_record at r.migration_lock r) inner.schema_migrations) i ≡ some r
still_stored inner at i r stored is_held =
    let kept =
      get-map_values (λ (r : SchemaMigrationRecord). expire_record at r.migration_lock r)
        inner.schema_migrations i r stored in
    rw (still_held at r is_held) at kept

not_active :
    (at : LedgerTimestamp) (r : SchemaMigrationRecord)
    → ¬ IsHeldAt at r
    → is_active_lock_record at (expire_record at r.migration_lock r) ≡ false
unfolding is_active_lock_record expire_record is_expired is_active is_migration_lock
not_active at r h = elim (Option-cases r.migration_lock) [
  | inl none_set ↦ rw none_set (ground (arith, none_set))
  | inr (lock, e) ↦ rw e (elim (Bool-cases (r.migration_name == migration_lock_record_name)) [
    | inr other ↦ ground (arith, other)
    | inl name ↦ elim (Bool-cases (lock.status == held)) [
      | inr closed ↦ ground (arith, closed, e)
      | inl is_held ↦
          elim (Bool-cases (ltb at (min (lock.locked_at + lock.timeout_millis) i64_max))) [
            | inr over ↦ ground (arith, over, is_held)
            | inl before ↦ absurd (
                h (
                  lock,
                  e,
                  eq→path r.migration_name migration_lock_record_name name,
                  eq→path lock.status held is_held,
                  ltb→lt _ _ before,
                ))
          ]
    ]
  ])
]

none_selected :
    (at : LedgerTimestamp) (m : Assoc SchemaMigrationId SchemaMigrationRecord)
    → AllRecords (λ r. ¬ IsHeldAt at r) m
    → select
        (λ r. is_active_lock_record at r)
        (values (map_values (λ r. expire_record at r.migration_lock r) m))
      ≡ []
none_selected at [] idle = refl
none_selected at ((id, r) ∷ m) (h, hs) = rw (not_active at r h) (none_selected at m hs)

none_held-none_active :
    (inner : InMemoryInner) (at : LedgerTimestamp)
    → AllRecords (λ r. ¬ IsHeldAt at r) inner.schema_migrations
    → active_migration_lock (expire_schema_migration_locks inner at) at ≡ none
unfolding active_migration_lock expire_schema_migration_locks most_recent
none_held-none_active inner at idle = rw (none_selected at inner.schema_migrations idle) refl

expired-none :
    (inner : InMemoryInner) (at : LedgerTimestamp) (id : SchemaMigrationId)
    → get inner.schema_migrations id ≡ none
    → get (expire_schema_migration_locks inner at).schema_migrations id ≡ none
unfolding expire_schema_migration_locks
expired-none inner at id absent = get-map_values-none _ inner.schema_migrations id absent

inserted-IsOnlyHeld :
    (inner : InMemoryInner) (at : LedgerTimestamp) (id : SchemaMigrationId)
    (r : SchemaMigrationRecord)
    → active_migration_lock (expire_schema_migration_locks inner at) at ≡ none
    → IsOnlyHeld id (insert (expire_schema_migration_locks inner at).schema_migrations id r)
unfolding expire_schema_migration_locks
inserted-IsOnlyHeld inner at id r free i other lock differs g name e is_held =
    none_active-none_held inner at free i other
      (ground (
        arith,
        g,
        differs,
        get-insert (expire_schema_migration_locks inner at).schema_migrations id i r,
      ))
      (held-is_held_lock other lock e name is_held)

module _ (host : Host) (id : SchemaMigrationId) (leader : String) (safe : Bool) (timeout : ℕ)
    (at : LedgerTimestamp) (inner : InMemoryInner) (named : is_blank leader ≡ false)
    (positive : (timeout == 0) ≡ false) where
  refused_while_active :
      (active : SchemaMigrationRecord)
      → active_migration_lock (expire_schema_migration_locks inner at) at ≡ some active
      → acquire_schema_migration_lock host id leader safe timeout at inner
        ≡ (err (conflict "schema_migrations" "active migration lock {} already held by {}"), inner)
  unfolding acquire_schema_migration_lock acquire_schema_migration_lock_draft mutate ◌>>=◌ ◌>>◌
  refused_while_active active e = rw (named, positive, e) refl

  acquired_without_active :
      active_migration_lock (expire_schema_migration_locks inner at) at ≡ none
      → get (expire_schema_migration_locks inner at).schema_migrations id ≡ none
      → ((s : InMemoryInner) → host.persist s ≡ ok tt)
      → acquire_schema_migration_lock host id leader safe timeout at inner ≡ (
        ok (acquired id leader safe timeout at),
        record (expire_schema_migration_locks inner at) {
          schema_migrations =
              insert
                (expire_schema_migration_locks inner at).schema_migrations
                id
                (acquired id leader safe timeout at);
        },
      )
  unfolding acquire_schema_migration_lock acquire_schema_migration_lock_draft mutate ◌>>=◌ ◌>>◌
      new_migration_lock new_lock_record insert_record
  acquired_without_active e absent written = rw (named, positive, e, absent, written _) refl

  -- While the store has a migration lock that is held and whose time has not run out, acquiring one
  -- with a leader and a timeout is refused, and the store stays as it was.
  pub acquire_schema_migration_lock-refused :
      (i : SchemaMigrationId) (r : SchemaMigrationRecord)
      → get inner.schema_migrations i ≡ some r
      → IsHeldAt at r
      → acquire_schema_migration_lock host id leader safe timeout at inner
        ≡ (err (conflict "schema_migrations" "active migration lock {} already held by {}"), inner)
  acquire_schema_migration_lock-refused i r stored is_held =
      elim (Option-cases (active_migration_lock (expire_schema_migration_locks inner at) at)) [
        | inl idle ↦ absurd (
            none_active-none_held inner at idle i r (still_stored inner at i r stored is_held)
              (held-is_held_lock r is_held.0 is_held.1 is_held.2 is_held.3))
        | inr (active, e) ↦ refused_while_active active e
      ]

  -- When there are a leader and a timeout, no migration lock of the store is held with time left,
  -- the identifier is new and every snapshot can be written, the lock is acquired: its record is
  -- held and stored, and no other lock of the store is held any more.
  pub acquire_schema_migration_lock-acquired :
      AllRecords (λ r. ¬ IsHeldAt at r) inner.schema_migrations
      → get inner.schema_migrations id ≡ none
      → ((s : InMemoryInner) → host.persist s ≡ ok tt)
      → ((acquire_schema_migration_lock host id leader safe timeout at inner).0
          ≡ ok (acquired id leader safe timeout at))
        × (get
              (acquire_schema_migration_lock host id leader safe timeout at
                inner).1.schema_migrations
              id
            ≡ some (acquired id leader safe timeout at))
        × IsOnlyHeld id
            (acquire_schema_migration_lock host id leader safe timeout at inner).1.schema_migrations
  acquire_schema_migration_lock-acquired idle absent written =
      let free = none_held-none_active inner at idle in
      let new = expired-none inner at id absent in
      rw (acquired_without_active free new written) (
        refl,
        get-insert_self (expire_schema_migration_locks inner at).schema_migrations id _,
        inserted-IsOnlyHeld inner at id _ free,
      )
