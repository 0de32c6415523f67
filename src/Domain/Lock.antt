-- ===== src/Domain/Lock.antt =====
-- Lock decisions, crates/atelia-core/src/domain.rs.
pub mod Reclaim
use atelia_secretary.Base.{
  String, ℕ, Bool, true, false, Option, none, some, List, [], Eq, ◌==◌, ◌!=◌, string_discrete,
  Result, ok, err, ◌>>=◌, ◌>>◌, reject_if, ltb, leb,
}
use atelia_secretary.Domain.Time.{LedgerTimestamp}
use atelia_secretary.Domain.Ids.{RepositoryId, JobId, PolicyDecisionId, LockDecisionId}
use atelia_secretary.Domain.Repository.{RedactionMarker, domain_schema_version}

pub data LockOwner : Type 0 where
  job : JobId → LockOwner
  process : String → LockOwner
  system : String → LockOwner

unfoldable pub LockOwner-discrete : Discrete LockOwner
LockOwner-discrete = hlevel string_discrete

instance abbrev pub owner_eq : Eq LockOwner
owner_eq = record { dec = LockOwner-discrete }

pub data LockedScope : Type 0 where
  repository : LockedScope
  path : String → LockedScope
  path_pattern : String → LockedScope

unfoldable pub LockedScope-discrete : Discrete LockedScope
LockedScope-discrete = hlevel string_discrete

instance abbrev pub scope_eq : Eq LockedScope
scope_eq = record { dec = LockedScope-discrete }

pub data LockStatus : Type 0 where
  held released expired reclaimed : LockStatus

pub record LockDecision : Type 0 where
  pub id : LockDecisionId
  pub schema_version : ℕ
  pub created_at : LedgerTimestamp
  pub updated_at : LedgerTimestamp
  pub repository_id : RepositoryId
  pub policy_decision_id : PolicyDecisionId
  pub owner : LockOwner
  pub locked_scope : LockedScope
  pub locked_at : LedgerTimestamp
  pub expires_at : LedgerTimestamp
  pub released_at : Option LedgerTimestamp
  pub reclaimed_at : Option LedgerTimestamp
  pub status : LockStatus
  pub redactions : List RedactionMarker

pub data LockDecisionCreateError : Type 0 where
  non_positive_duration : (locked_at expires_at : LedgerTimestamp) → LockDecisionCreateError

-- `LockDecision::new`; the fresh identifier is the first argument.
unfoldable pub new_lock :
    LockDecisionId
    → RepositoryId
    → PolicyDecisionId
    → LockOwner
    → LockedScope
    → LedgerTimestamp
    → LedgerTimestamp
    → Result LockDecisionCreateError LockDecision
new_lock id repository_id policy_decision_id owner locked_scope locked_at expires_at = do
  reject_if (leb expires_at locked_at) (non_positive_duration locked_at expires_at)
  ok (record {
    id = id;
    schema_version = domain_schema_version;
    created_at = locked_at;
    updated_at = locked_at;
    repository_id = repository_id;
    policy_decision_id = policy_decision_id;
    owner = owner;
    locked_scope = locked_scope;
    locked_at = locked_at;
    expires_at = expires_at;
    released_at = none;
    reclaimed_at = none;
    status = held;
    redactions = [];
  })

pub data LockReclaimError : Type 0 where
  owner_mismatch already_released : LockReclaimError
  not_expired : (reclaimed_at expires_at : LedgerTimestamp) → LockReclaimError
  non_monotonic_timestamp : (at latest : LedgerTimestamp) → LockReclaimError

unfoldable pub ensure_monotonic_reclaim_timestamp :
    LockDecision → LedgerTimestamp → Result LockReclaimError (Unit {0})
ensure_monotonic_reclaim_timestamp lock reclaimed_at =
    reject_if (ltb reclaimed_at lock.updated_at)
      (non_monotonic_timestamp reclaimed_at lock.updated_at)

-- The arm of `reclaim` for a held or an expired lock.
unfoldable pub reclaim_open :
    LockDecision → LedgerTimestamp → Result LockReclaimError (LockDecision × Bool)
unfolding ensure_monotonic_reclaim_timestamp
reclaim_open lock reclaimed_at = do
  ensure_monotonic_reclaim_timestamp lock reclaimed_at
  reject_if (ltb reclaimed_at lock.expires_at) (not_expired reclaimed_at lock.expires_at)
  ok (
    record lock { status = reclaimed; reclaimed_at = some reclaimed_at; updated_at = reclaimed_at },
    true,
  )

unfoldable pub reclaim_by_status :
    LockStatus → LockDecision → LedgerTimestamp → Result LockReclaimError (LockDecision × Bool)
unfolding reclaim_open
reclaim_by_status reclaimed lock reclaimed_at = ok (lock, false)
reclaim_by_status held lock reclaimed_at = reclaim_open lock reclaimed_at
reclaim_by_status expired lock reclaimed_at = reclaim_open lock reclaimed_at
reclaim_by_status released lock reclaimed_at = err already_released

-- `LockDecision::reclaim`: the lock afterwards, and whether it was reclaimed by this call.
unfoldable pub reclaim :
    LockDecision → LockOwner → LedgerTimestamp → Result LockReclaimError (LockDecision × Bool)
unfolding reclaim_by_status
reclaim lock owner reclaimed_at = do
  reject_if (owner != lock.owner) owner_mismatch
  reclaim_by_status lock.status lock reclaimed_at
