-- ===== src/Store/Calls/Tests.antt =====
-- The migration lock on concrete states, crates/atelia-core/src/store.rs.
use atelia_secretary.Store.Migrations.{acquire_schema_migration_lock}
use atelia_secretary.Store.Calls.Acquire.{
  acquire_schema_migration_lock-refused, acquire_schema_migration_lock-acquired, acquired, IsHeldAt,
  IsOnlyHeld,
}
use atelia_secretary.Store.Mutate.{Host}
use atelia_secretary.Store.State.{conflict, default_inner, InMemoryInner}
use atelia_secretary.Base.{
  none, some, ap, arith, is_whitespace, option_eq, nat_eq, string_eq, is_blank, ◌≡◌, refl, ok, err,
  true, get, string_discrete, nat_discrete, [], ◌∷◌,
}
use atelia_secretary.Domain.Migration.{MigrationLockRecord, held, SchemaMigrationRecord}

abbrev writing_host : Host
writing_host = record { parses_uuid = λ s. true; persist = λ inner. ok tt }

abbrev a_held_lock : SchemaMigrationRecord
a_held_lock = acquired "mig_1" "leader" true 100 10

abbrev another_lock : SchemaMigrationRecord
another_lock = acquired "mig_2" "other" true 100 110

abbrev locked_store : InMemoryInner
locked_store = record default_inner { schema_migrations = ("mig_1", a_held_lock) ∷ [] }

acquire_schema_migration_lock-refused_example :
    acquire_schema_migration_lock writing_host "mig_2" "other" true 100 20 locked_store ≡ (
      err (conflict "schema_migrations" "active migration lock {} already held by {}"),
      locked_store,
    )
unfolding is_blank is_whitespace nat_discrete get string_discrete
acquire_schema_migration_lock-refused_example =
    acquire_schema_migration_lock-refused writing_host "mig_2" "other" true 100 20 locked_store refl
      refl "mig_1" a_held_lock refl (_, refl, refl, refl, omega arith)

over : ¬ IsHeldAt 110 a_held_lock
over (lock, e, name, is_held, before) =
    let same : (record {
      status = held;
      leader_id = "leader";
      safe = true;
      locked_at = 10;
      timeout_millis = 100;
      released_at = none;
    })
        ≡ lock =
      cc e in
    omega (
      arith,
      before,
      ap (λ (l : MigrationLockRecord). l.locked_at) same,
      ap (λ (l : MigrationLockRecord). l.timeout_millis) same,
    )

acquire_schema_migration_lock-acquired_example :
    ((acquire_schema_migration_lock writing_host "mig_2" "other" true 100 110 locked_store).0
      ≡ ok another_lock)
    × (get
          (acquire_schema_migration_lock writing_host "mig_2" "other" true 100 110
            locked_store).1.schema_migrations
          "mig_2"
        ≡ some another_lock)
    × IsOnlyHeld "mig_2"
        (acquire_schema_migration_lock writing_host "mig_2" "other" true 100 110
          locked_store).1.schema_migrations
unfolding is_blank is_whitespace nat_discrete get string_discrete
acquire_schema_migration_lock-acquired_example =
    acquire_schema_migration_lock-acquired writing_host "mig_2" "other" true 100 110 locked_store
      refl refl (over, tt) refl (λ s. refl)
