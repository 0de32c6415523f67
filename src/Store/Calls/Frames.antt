-- ===== src/Store/Calls/Frames.antt =====
-- Each operation keeps what its writes keep: the drafts of crates/atelia-core/src/store.rs by the
-- collections that they write.
use atelia_secretary.Domain.Job.{JobRecord}
use atelia_secretary.Domain.Lock.{LockDecision}
use atelia_secretary.Domain.Event.{JobEvent}
use atelia_secretary.Domain.Policy.{PolicyDecision}
use atelia_secretary.Domain.Time.{LedgerTimestamp}
use atelia_secretary.Domain.Tool.{ToolResult, ToolInvocation, AuditRecord}
use atelia_secretary.Domain.Repository.{RepositoryRecord}
use atelia_secretary.Domain.Migration.{SchemaMigrationRecord}
use atelia_secretary.Base.{
  Ensures-ok, ok, Ensures, ◌≡◌, ℕ, Bool, String, Ensures-pure, Ensures-bind, Ensures-seq,
}
use atelia_secretary.Domain.Ids.{SchemaMigrationId}
use atelia_secretary.Store.State.{InMemoryInner}
use atelia_secretary.Store.Mutate.{Host}
use atelia_secretary.Store.Mutate.Keeps.{DraftKeeps}
use atelia_secretary.Store.Repositories.{create_repository_draft, create_policy_decision_draft}
use atelia_secretary.Store.Locks.{create_lock_decision_draft}
use atelia_secretary.Store.Migrations.{
  create_schema_migration_draft, acquire_schema_migration_lock_draft,
  get_schema_migration_lock_draft, release_schema_migration_lock_draft,
  expire_schema_migration_locks,
}
use atelia_secretary.Store.Tools.{
  with_result, validate_result_and_audit, record_tool_result_and_audit_draft,
  create_tool_invocation_draft, create_tool_result_draft, create_audit_record_draft,
}
use atelia_secretary.Store.Ledger.{
  with_event, with_job, append_event_locked, create_job_draft, append_job_event_draft,
  append_job_event_and_update_job_draft, append_job_events_and_update_job_draft,
}

module _ {ℓ} (P : InMemoryInner → Type ℓ) (inner : InMemoryInner) where
  pub repository-frame :
      ((m : _) → P (record inner { repositories = m }))
      → (r : RepositoryRecord) → DraftKeeps P (create_repository_draft r inner)
  unfolding create_repository_draft
  repository-frame write r = search (Ensures-bind, Ensures-seq, Ensures-pure, write) depth 20

  pub policy-frame :
      ((m : _) → P (record inner { policy_decisions = m }))
      → (d : PolicyDecision) → DraftKeeps P (create_policy_decision_draft d inner)
  unfolding create_policy_decision_draft
  policy-frame write d = search (Ensures-bind, Ensures-seq, Ensures-pure, write) depth 20

  pub lock-frame :
      ((m : _) → P (record inner { lock_decisions = m }))
      → (l : LockDecision) → DraftKeeps P (create_lock_decision_draft l inner)
  unfolding create_lock_decision_draft
  lock-frame write l = search (Ensures-bind, Ensures-seq, Ensures-pure, write) depth 20

  pub invocation-frame :
      ((m : _) → P (record inner { tool_invocations = m }))
      → (r : ToolInvocation) → DraftKeeps P (create_tool_invocation_draft r inner)
  unfolding create_tool_invocation_draft
  invocation-frame write r = search (Ensures-bind, Ensures-seq, Ensures-pure, write) depth 20

  pub result-frame :
      ((m : _) → P (record inner { tool_results = m }))
      → (r : ToolResult) → DraftKeeps P (create_tool_result_draft r inner)
  unfolding create_tool_result_draft
  result-frame write r = search (Ensures-bind, Ensures-seq, Ensures-pure, write) depth 20

  pub audit-frame :
      ((m : _) → P (record inner { audit_records = m }))
      → (r : AuditRecord) → DraftKeeps P (create_audit_record_draft r inner)
  unfolding create_audit_record_draft
  audit-frame write r = search (Ensures-bind, Ensures-seq, Ensures-pure, write) depth 20

  module _ (write : (m : _) → P (record inner { schema_migrations = m })) where
    pub migration-frame :
        (r : SchemaMigrationRecord) → DraftKeeps P (create_schema_migration_draft r inner)
    unfolding create_schema_migration_draft expire_schema_migration_locks
    migration-frame r = search (Ensures-bind, Ensures-seq, Ensures-pure, write) depth 20

    pub acquire-frame :
        (id : SchemaMigrationId) (leader : String) (safe : Bool) (timeout : ℕ)
        (at : LedgerTimestamp)
        → DraftKeeps P (acquire_schema_migration_lock_draft id leader safe timeout at inner)
    unfolding acquire_schema_migration_lock_draft expire_schema_migration_locks
    acquire-frame id leader safe timeout at =
        search (Ensures-bind, Ensures-seq, Ensures-pure, write) depth 20

    pub find_lock-frame :
        (now : LedgerTimestamp) → DraftKeeps P (get_schema_migration_lock_draft now inner)
    unfolding get_schema_migration_lock_draft expire_schema_migration_locks
    find_lock-frame now = Ensures-pure _ _ (write _)

    pub release-frame :
        (id : SchemaMigrationId) (leader : String) (at : LedgerTimestamp)
        → DraftKeeps P (release_schema_migration_lock_draft id leader at inner)
    unfolding release_schema_migration_lock_draft expire_schema_migration_locks
    release-frame id leader at = search (Ensures-bind, Ensures-seq, Ensures-pure, write) depth 20

-- The operations that append events write the ledger and the jobs.
module _ {ℓ} (P : InMemoryInner → Type ℓ) (host : Host)
    (write_event : (s : InMemoryInner) (e : JobEvent) (n : ℕ) → P s → P (with_event s e n))
    (write_job : (s : InMemoryInner) (j : JobRecord) → P s → P (with_job s j))
    (inner : InMemoryInner) (p : P inner) where
  append-frame :
      (s : InMemoryInner) (e : JobEvent) → P s → Ensures (λ r. P r.0) (append_event_locked s e)
  unfolding append_event_locked
  append-frame s e q = Ensures-bind _ _ _ λ n h. Ensures-pure _ _ (write_event s e n q)

  appended :
      (s : InMemoryInner) (e : JobEvent) (r : InMemoryInner × JobEvent)
      → P s
      → append_event_locked s e ≡ ok r
      → P r.0
  appended s e r q = Ensures-ok (λ t. P t.0) _ r (append-frame s e q)

  pub job-frame : (j : JobRecord) (e : JobEvent) → DraftKeeps P (create_job_draft host j e inner)
  unfolding create_job_draft
  job-frame j e =
      search (Ensures-bind, Ensures-seq, Ensures-pure, write_event, write_job, p) depth 20

  pub event-frame : (e : JobEvent) → DraftKeeps P (append_job_event_draft host e inner)
  unfolding append_job_event_draft
  event-frame e = search (Ensures-bind, Ensures-seq, Ensures-pure, appended, p) depth 20

  pub update-frame :
      (j : JobRecord) (e : JobEvent)
      → DraftKeeps P (append_job_event_and_update_job_draft host j e inner)
  unfolding append_job_event_and_update_job_draft
  update-frame j e =
      search (Ensures-bind, Ensures-seq, Ensures-pure, appended, write_job, p) depth 20

  pub two_updates-frame :
      (j : JobRecord) (e : JobEvent) (k : JobRecord) (f : JobEvent)
      → DraftKeeps P (append_job_events_and_update_job_draft host j e k f inner)
  unfolding append_job_events_and_update_job_draft
  two_updates-frame j e k f =
      search (Ensures-bind, Ensures-seq, Ensures-pure, appended, write_job, p) depth 20

  pub result_and_audit-frame :
      (j : JobRecord) (r : ToolResult) (e : JobEvent) (a : AuditRecord) (f : JobEvent)
      → (validate_result_and_audit host j r e a f inner ≡ ok tt → P (with_result inner r))
      → ((s : InMemoryInner) (m : _) → P s → P (record s { audit_records = m }))
      → DraftKeeps P (record_tool_result_and_audit_draft host j r e a f inner)
  unfolding record_tool_result_and_audit_draft
  result_and_audit-frame j r e a f write_result write_audit = Ensures-seq _ _ _ λ checked.
      Ensures-bind _ _ _ λ first q. Ensures-bind _ _ _ λ second q'.
        let once = appended _ e first (write_result checked) q in
        Ensures-pure _ _ (
          write_job second.0 _
            (appended _ f second (write_audit _ _ (write_job first.0 _ once)) q'))
