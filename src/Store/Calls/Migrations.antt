-- ===== src/Store/Calls/Migrations.antt =====
-- The migration lock over a history, crates/atelia-core/src/store.rs.
use atelia_secretary.Store.Calls.Frames.{
  result_and_audit-frame, audit-frame, result-frame, invocation-frame, lock-frame, policy-frame,
  two_updates-frame, update-frame, event-frame, job-frame, repository-frame,
}
use atelia_secretary.Store.Calls.Induction.{run-keeps, CallKeeps}
use atelia_secretary.Store.Mutate.Keeps.{DraftKeeps}
use atelia_secretary.Domain.Ids.{SchemaMigrationId}
use atelia_secretary.Store.Ledger.{with_job, with_event}
use atelia_secretary.Store.Calls.Writes.{insert_record-insert}
use atelia_secretary.Store.Migrations.{
  is_active_lock_record, expire_schema_migration_locks, release_schema_migration_lock_draft,
  acquire_schema_migration_lock_draft, active_migration_lock, admit_write, most_recent,
  get_schema_migration_lock_draft, create_schema_migration_draft, expire_record, release_record,
}
use atelia_secretary.Domain.Migration.{
  is_active, is_expired, is_migration_lock, MigrationLockRecord, SchemaMigrationRecord,
}
use atelia_secretary.Domain.Time.{LedgerTimestamp}
use atelia_secretary.Store.Mutate.{Host}
use atelia_secretary.Domain.Migration.{held, lock_status_eq}
use atelia_secretary.Base.{
  values, refl, option_eq, nat_eq, reject_if-false, ok_or-some, any, get-insert, ◌∷◌, is_some-false,
  Ensures-seq, get-map_values-some, insert, [], any-values-get, Ensures-pure, ◌==◌, Ensures-bind,
  ◌&&◌, ℕ, false, String, select, true, map_values, some, none, ok, Bool, ◌>>◌, List, Assoc, Option,
  ◌≡◌, get, string_eq, arith,
}
use atelia_secretary.Store.Calls.{
  Call, repository_call, job_call, event_call, update_call, two_updates_call, policy_call,
  lock_call, migration_call, acquire_call, find_lock_call, release_call, invocation_call,
  result_call, audit_call, result_and_audit_call, run,
}
use atelia_secretary.Store.State.{default_inner, InMemoryInner}

unfoldable pub holds : Option MigrationLockRecord → Bool
holds none = false
holds (some lock) = lock.status == held

-- A migration lock that has been neither released nor closed.
unfoldable pub is_held_lock : SchemaMigrationRecord → Bool
unfolding holds
is_held_lock r = is_migration_lock r && holds r.migration_lock

abbrev pub IsExclusive : Assoc SchemaMigrationId SchemaMigrationRecord → Type 0
IsExclusive m =
    (id id' : SchemaMigrationId) (r r' : SchemaMigrationRecord)
    → get m id ≡ some r
    → get m id' ≡ some r'
    → is_held_lock r ≡ true
    → is_held_lock r' ≡ true
    → id ≡ id'

abbrev pub HasOneMigrationLock : InMemoryInner → Type 0
HasOneMigrationLock inner = IsExclusive inner.schema_migrations

abbrev expired_at : LedgerTimestamp → SchemaMigrationRecord → SchemaMigrationRecord
expired_at now r = expire_record now r.migration_lock r

expire_record-held :
    (now : LedgerTimestamp) (r : SchemaMigrationRecord)
    → is_held_lock (expired_at now r) ≡ true
    → (is_held_lock r ≡ true) × (is_active_lock_record now (expired_at now r) ≡ true)
unfolding is_held_lock expire_record is_active_lock_record is_migration_lock is_expired is_active
expire_record-held now r h = ground arith

module _ (now : LedgerTimestamp) (m : Assoc SchemaMigrationId SchemaMigrationRecord) where
  expired-get :
      (id : SchemaMigrationId) (r : SchemaMigrationRecord)
      → get (map_values (expired_at now) m) id ≡ some r
      → (old : SchemaMigrationRecord) × (get m id ≡ some old) × (r ≡ expired_at now old)
  expired-get id r g = get-map_values-some (expired_at now) m id r g

  expired-IsExclusive : IsExclusive m → IsExclusive (map_values (expired_at now) m)
  expired-IsExclusive h id id' r r' g g' p p' =
      let (a, ga, ea) = expired-get id r g in
      let (b, gb, eb) = expired-get id' r' g' in
      h id id' a b ga gb (expire_record-held now a (rw (← ea) p)).0
        (expire_record-held now b (rw (← eb) p')).0

insert-IsExclusive :
    (m : Assoc SchemaMigrationId SchemaMigrationRecord) (k : SchemaMigrationId)
    (r : SchemaMigrationRecord)
    → IsExclusive m
    → (is_held_lock r ≡ true
        → (id : SchemaMigrationId) (other : SchemaMigrationRecord) → get m id ≡ some other
        → is_held_lock other ≡ true
        → id ≡ k)
    → IsExclusive (insert m k r)
insert-IsExclusive m k r h alone id id' a b g g' p p' = ground (
  arith,
  get-insert m k id r,
  get-insert m k id' r,
  λ (q : is_held_lock r ≡ true). alone q id a,
  λ (q : is_held_lock r ≡ true). alone q id' b,
  h id id' a b,
)

most_recent-none : (rs : List SchemaMigrationRecord) → most_recent rs ≡ none → rs ≡ []
unfolding most_recent
most_recent-none [] e = refl
most_recent-none (r ∷ rs) e = ground arith

select-none :
    (p : SchemaMigrationRecord → Bool) (rs : List SchemaMigrationRecord)
    → select p rs ≡ []
    → any p rs ≡ false
select-none p [] e = refl
select-none p (r ∷ rs) e = ground (arith, select-none p rs)

-- Without an active lock, no lock is held after the expired ones have been closed.
pub none_active-none_held :
    (inner : InMemoryInner) (now : LedgerTimestamp)
    → active_migration_lock (expire_schema_migration_locks inner now) now ≡ none
    → (id : SchemaMigrationId) (r : SchemaMigrationRecord)
    → get (map_values (expired_at now) inner.schema_migrations) id ≡ some r
    → is_held_lock r ≡ true
    → ⊥
unfolding active_migration_lock expire_schema_migration_locks
none_active-none_held inner now e id r g is_held =
    let (old, found, same) = expired-get now inner.schema_migrations id r g in
    let active = expire_record-held now old (rw (← same) is_held) in
    let idle =
      any-values-get (is_active_lock_record now) _ id r
        (select-none (is_active_lock_record now)
          (values (map_values (expired_at now) inner.schema_migrations)) (most_recent-none _ e))
        g in
    cc (idle, active.1, same)

module _ (inner : InMemoryInner) (h : HasOneMigrationLock inner) where
  abbrev current : LedgerTimestamp → Assoc SchemaMigrationId SchemaMigrationRecord
  current now = map_values (expired_at now) inner.schema_migrations

  admitted-alone :
      (active : Option SchemaMigrationRecord) (r : SchemaMigrationRecord)
      → admit_write active r ≡ ok tt
      → is_held_lock r ≡ true
      → active ≡ none
  unfolding admit_write is_held_lock ◌>>◌
  admitted-alone active r e p = ground arith

  migration-HasOneMigrationLock :
      (r : SchemaMigrationRecord)
      → DraftKeeps HasOneMigrationLock (create_schema_migration_draft r inner)
  unfolding create_schema_migration_draft expire_schema_migration_locks
  migration-HasOneMigrationLock r = Ensures-seq _ _ _ λ admitted. Ensures-bind _ _ _ λ m inserted.
      let e = (insert_record-insert _ m r.id r _ inserted).1 in
      let one : IsExclusive m = rw e (
        insert-IsExclusive _ r.id r (expired-IsExclusive _ _ h) λ q id other g p.
          absurd (none_active-none_held inner _ (admitted-alone _ r admitted q) id other g p)) in
      Ensures-pure _ _ one

  acquire-HasOneMigrationLock :
      (id : SchemaMigrationId) (leader : String) (safe : Bool) (timeout : ℕ) (at : LedgerTimestamp)
      → DraftKeeps HasOneMigrationLock
          (acquire_schema_migration_lock_draft id leader safe timeout at inner)
  unfolding acquire_schema_migration_lock_draft expire_schema_migration_locks
  acquire-HasOneMigrationLock id leader safe timeout at = Ensures-seq _ _ _ λ free.
      Ensures-bind _ _ _ λ r built. Ensures-bind _ _ _ λ m inserted.
        let e = (insert_record-insert _ m r.id r _ inserted).1 in
        let one : IsExclusive m = rw e (
          insert-IsExclusive _ r.id r (expired-IsExclusive _ _ h) λ q id' other g p. absurd (
            none_active-none_held inner at (is_some-false _ (reject_if-false _ _ free)) id' other g
              p)) in
        Ensures-pure _ _ one

  find_lock-HasOneMigrationLock :
      (now : LedgerTimestamp)
      → DraftKeeps HasOneMigrationLock (get_schema_migration_lock_draft now inner)
  unfolding get_schema_migration_lock_draft expire_schema_migration_locks
  find_lock-HasOneMigrationLock now = Ensures-pure _ _ (expired-IsExclusive now _ h)

  -- A released record is not held, or it is the record that was there.
  release_record-held :
      (leader : String) (at : LedgerTimestamp) (r after : SchemaMigrationRecord)
      (lock : MigrationLockRecord)
      → r.migration_lock ≡ some lock
      → release_record leader at r lock ≡ ok after
      → is_held_lock after ≡ false
  unfolding release_record is_held_lock ◌>>◌
  release_record-held leader at r after lock e q = ground arith

  release-HasOneMigrationLock :
      (id : SchemaMigrationId) (leader : String) (at : LedgerTimestamp)
      → DraftKeeps HasOneMigrationLock (release_schema_migration_lock_draft id leader at inner)
  unfolding release_schema_migration_lock_draft expire_schema_migration_locks
  release-HasOneMigrationLock id leader at = Ensures-bind _ _ _ λ r found.
      Ensures-seq _ _ _ λ is_lock. Ensures-bind _ _ _ λ lock has.
        Ensures-bind _ _ _ λ after released.
          let free =
            release_record-held leader at r after lock (ok_or-some _ _ lock has) released in
          Ensures-pure _ _
            (insert-IsExclusive _ id after (expired-IsExclusive at _ h) λ q. absurd (cc (q, free)))

keeps-HasOneMigrationLock :
    (host : Host) (inner : InMemoryInner) (call : Call)
    → HasOneMigrationLock inner
    → CallKeeps HasOneMigrationLock host inner call
unfolding with_event with_job
keeps-HasOneMigrationLock host inner (repository_call r) h =
    λ valid. repository-frame HasOneMigrationLock inner (λ m. h) r
keeps-HasOneMigrationLock host inner (job_call j e) h =
    job-frame HasOneMigrationLock host (λ s e n p. p) (λ s j p. p) inner h j e
keeps-HasOneMigrationLock host inner (event_call e) h =
    event-frame HasOneMigrationLock host (λ s e n p. p) (λ s j p. p) inner h e
keeps-HasOneMigrationLock host inner (update_call j e) h =
    update-frame HasOneMigrationLock host (λ s e n p. p) (λ s j p. p) inner h j e
keeps-HasOneMigrationLock host inner (two_updates_call j e k f) h =
    two_updates-frame HasOneMigrationLock host (λ s e n p. p) (λ s j p. p) inner h j e k f
keeps-HasOneMigrationLock host inner (policy_call d) h =
    policy-frame HasOneMigrationLock inner (λ m. h) d
keeps-HasOneMigrationLock host inner (lock_call l) h =
    lock-frame HasOneMigrationLock inner (λ m. h) l
keeps-HasOneMigrationLock host inner (migration_call r) h =
    λ valid. migration-HasOneMigrationLock inner h r
keeps-HasOneMigrationLock host inner (acquire_call id leader safe timeout at) h =
    acquire-HasOneMigrationLock inner h id leader safe timeout at
keeps-HasOneMigrationLock host inner (find_lock_call now) h =
    find_lock-HasOneMigrationLock inner h now
keeps-HasOneMigrationLock host inner (release_call id leader at) h =
    release-HasOneMigrationLock inner h id leader at
keeps-HasOneMigrationLock host inner (invocation_call r) h =
    invocation-frame HasOneMigrationLock inner (λ m. h) r
keeps-HasOneMigrationLock host inner (result_call r) h =
    result-frame HasOneMigrationLock inner (λ m. h) r
keeps-HasOneMigrationLock host inner (audit_call r) h =
    audit-frame HasOneMigrationLock inner (λ m. h) r
keeps-HasOneMigrationLock host inner (result_and_audit_call j r e a f) h =
    result_and_audit-frame HasOneMigrationLock host (λ s e n p. p) (λ s j p. p) inner h j r e a f
      (λ checked. h) (λ s m p. p)

-- After any sequence of calls from the empty store, at most one migration lock is held.
pub run-HasOneMigrationLock :
    (host : Host) (calls : List Call) → HasOneMigrationLock (run host default_inner calls)
unfolding get
run-HasOneMigrationLock host calls =
    run-keeps HasOneMigrationLock host (keeps-HasOneMigrationLock host) default_inner calls
      λ id id' r r' g. absurd (cc)
