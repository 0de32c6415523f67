-- ===== src/Store/Calls/Induction.antt =====
-- An invariant of every draft is one of every history.
use atelia_secretary.Base.{
  refl, List, [], ◌∷◌, ◌≡◌, ok, err, if◌then◌else◌, ◌==◌, is_blank, nat_eq, Bool, true, false,
}
use atelia_secretary.Store.State.{StoreResult, InMemoryInner}
use atelia_secretary.Store.Mutate.{Host, Draft, mutate}
use atelia_secretary.Store.Mutate.Keeps.{
  DraftKeeps, mutate-keeps, mutate_with_published_events-keeps,
}
use atelia_secretary.Store.Ledger.{
  create_job_with_initial_event, append_job_event, append_job_event_and_update_job,
  append_job_events_and_update_job, create_job_draft, append_job_event_draft,
  append_job_event_and_update_job_draft, append_job_events_and_update_job_draft,
}
use atelia_secretary.Store.Repositories.{
  create_repository, create_policy_decision, create_repository_draft, create_policy_decision_draft,
  validate_repository_record,
}
use atelia_secretary.Store.Locks.{create_lock_decision, create_lock_decision_draft}
use atelia_secretary.Store.Migrations.{
  create_schema_migration, acquire_schema_migration_lock, get_schema_migration_lock,
  release_schema_migration_lock, create_schema_migration_draft, acquire_schema_migration_lock_draft,
  get_schema_migration_lock_draft, release_schema_migration_lock_draft,
  validate_schema_migration_record,
}
use atelia_secretary.Store.Tools.{
  create_tool_invocation, create_tool_result, create_audit_record,
  record_tool_result_and_audit_with_events, create_tool_invocation_draft, create_tool_result_draft,
  create_audit_record_draft, record_tool_result_and_audit_draft,
}
use atelia_secretary.Store.Calls.{
  Call, repository_call, job_call, event_call, update_call, two_updates_call, policy_call,
  lock_call, migration_call, acquire_call, find_lock_call, release_call, invocation_call,
  result_call, audit_call, result_and_audit_call, step, run,
}

-- The draft of the call keeps `P`. Where the operation checks its record first, the record has
-- passed.
abbrev pub CallKeeps {ℓ} : (InMemoryInner → Type ℓ) → Host → InMemoryInner → Call → Type ℓ
CallKeeps P host inner (repository_call r) =
    validate_repository_record r ≡ ok tt → DraftKeeps P (create_repository_draft r inner)
CallKeeps P host inner (job_call j e) = DraftKeeps P (create_job_draft host j e inner)
CallKeeps P host inner (event_call e) = DraftKeeps P (append_job_event_draft host e inner)
CallKeeps P host inner (update_call j e) =
    DraftKeeps P (append_job_event_and_update_job_draft host j e inner)
CallKeeps P host inner (two_updates_call j e k f) =
    DraftKeeps P (append_job_events_and_update_job_draft host j e k f inner)
CallKeeps P host inner (policy_call d) = DraftKeeps P (create_policy_decision_draft d inner)
CallKeeps P host inner (lock_call l) = DraftKeeps P (create_lock_decision_draft l inner)
CallKeeps P host inner (migration_call r) =
    validate_schema_migration_record r ≡ ok tt
    → DraftKeeps P (create_schema_migration_draft r inner)
CallKeeps P host inner (acquire_call id leader safe timeout at) =
    DraftKeeps P (acquire_schema_migration_lock_draft id leader safe timeout at inner)
CallKeeps P host inner (find_lock_call now) =
    DraftKeeps P (get_schema_migration_lock_draft now inner)
CallKeeps P host inner (release_call id leader at) =
    DraftKeeps P (release_schema_migration_lock_draft id leader at inner)
CallKeeps P host inner (invocation_call r) = DraftKeeps P (create_tool_invocation_draft r inner)
CallKeeps P host inner (result_call r) = DraftKeeps P (create_tool_result_draft r inner)
CallKeeps P host inner (audit_call r) = DraftKeeps P (create_audit_record_draft r inner)
CallKeeps P host inner (result_and_audit_call j r e a f) =
    DraftKeeps P (record_tool_result_and_audit_draft host j r e a f inner)

module _ {ℓ} (P : InMemoryInner → Type ℓ) (host : Host) (inner : InMemoryInner) (p : P inner) where
  after_check :
      {R : Type 0} (checked : StoreResult (Unit {0}))
      (mutator : InMemoryInner → StoreResult (Draft R))
      → (checked ≡ ok tt → DraftKeeps P (mutator inner))
      → P
          (let r : StoreResult R × InMemoryInner = elim checked [
            | ok _ ↦ mutate host mutator inner
            | err e ↦ (err e, inner)
          ] in
            r).1
  after_check (ok tt) mutator k = mutate-keeps P host mutator inner p (k refl)
  after_check (err e) mutator k = p

  after_test :
      {R : Type 0} (test : Bool) (refused committed : StoreResult R × InMemoryInner)
      → P refused.1
      → P committed.1
      → P (if test then refused else committed).1
  after_test true refused committed r c = r
  after_test false refused committed r c = c

  pub step-keeps : (call : Call) → CallKeeps P host inner call → P (step host inner call)
  unfolding step create_repository create_schema_migration acquire_schema_migration_lock
      create_job_with_initial_event append_job_event append_job_event_and_update_job
      append_job_events_and_update_job create_policy_decision create_lock_decision
      get_schema_migration_lock release_schema_migration_lock create_tool_invocation
      create_tool_result create_audit_record record_tool_result_and_audit_with_events
  step-keeps (repository_call r) k = after_check (validate_repository_record r) _ k
  step-keeps (job_call j e) k = mutate_with_published_events-keeps P host _ inner p k
  step-keeps (event_call e) k = mutate_with_published_events-keeps P host _ inner p k
  step-keeps (update_call j e) k = mutate_with_published_events-keeps P host _ inner p k
  step-keeps (two_updates_call j e j' f) k = mutate_with_published_events-keeps P host _ inner p k
  step-keeps (policy_call d) k = mutate-keeps P host _ inner p k
  step-keeps (lock_call l) k = mutate-keeps P host _ inner p k
  step-keeps (migration_call r) k = after_check (validate_schema_migration_record r) _ k
  step-keeps (acquire_call id leader safe timeout at) k =
      after_test (is_blank leader) _ _ p
        (after_test (timeout == 0) _ _ p (mutate-keeps P host _ inner p k))
  step-keeps (find_lock_call now) k = mutate-keeps P host _ inner p k
  step-keeps (release_call id leader at) k = mutate-keeps P host _ inner p k
  step-keeps (invocation_call r) k = mutate-keeps P host _ inner p k
  step-keeps (result_call r) k = mutate-keeps P host _ inner p k
  step-keeps (audit_call r) k = mutate-keeps P host _ inner p k
  step-keeps (result_and_audit_call j r e a f) k =
      mutate_with_published_events-keeps P host _ inner p k

module _ {ℓ} (P : InMemoryInner → Type ℓ) (host : Host)
    (keeps : (inner : InMemoryInner) (call : Call) → P inner → CallKeeps P host inner call) where
  pub run-keeps : (inner : InMemoryInner) (calls : List Call) → P inner → P (run host inner calls)
  unfolding run
  run-keeps inner [] p = p
  run-keeps inner (call ∷ calls) p =
      run-keeps (step host inner call) calls (step-keeps P host inner p call (keeps inner call p))
