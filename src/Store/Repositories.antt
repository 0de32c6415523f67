-- ===== src/Store/Repositories.antt =====
-- Repositories and policy decisions, crates/atelia-core/src/store.rs.
use atelia_secretary.Base.{
  String, Bool, true, false, ◌&&◌, ◌||◌, List, [], ◌∷◌, Assoc, ◌==◌, ◌!=◌, get, values, any,
  contains_key, ok, err, ◌>>=◌, ◌>>◌, reject_if, ok_or, if◌then◌else◌, trim, is_blank, string_eq,
}
use atelia_secretary.Domain.Ids.{RepositoryId}
use atelia_secretary.Domain.Repository
use atelia_secretary.Domain.Repository.{RepositoryRecord, trust_state_eq}
use atelia_secretary.Domain.Policy.{PolicyDecision, PolicyOutcome, outcome_eq}
use atelia_secretary.Policy.{reason_repository_blocked}
use atelia_secretary.Store.State.{
  StoreResult, InMemoryInner, not_found, duplicate_id, conflict, invalid_reference, invalid_record,
}
use atelia_secretary.Store.Checks.{ensure_ref_exists, insert_record}
use atelia_secretary.Store.Paths.{repository_roots_strictly_overlap}
use atelia_secretary.Store.Mutate.{Host, Draft, mutate}

is_nil : List String → Bool
is_nil [] = true
is_nil (path ∷ paths) = false

unfoldable pub validate_repository_record : RepositoryRecord → StoreResult (Unit {0})
unfolding is_nil
validate_repository_record r = do
  reject_if (is_blank r.display_name)
      (invalid_record "repositories" "display_name must not be empty")
  reject_if (is_blank r.root_path) (invalid_record "repositories" "root_path must not be empty")
  reject_if (r.allowed_path_scope.root_path != r.root_path)
      (invalid_record "repositories" "allowed_path_scope.root_path must match repository root_path")
  reject_if (is_nil r.allowed_path_scope.allowed_paths)
      (invalid_record "repositories" "allowed_path_scope must include at least one path")

unfoldable pub is_root_scoped_repository_block : PolicyDecision → Bool
is_root_scoped_repository_block d =
    d.outcome == PolicyOutcome.blocked
    && trim d.reason_code == reason_repository_blocked
    && trim d.resource_scope.kind == "repository"
    && trim d.resource_scope.value == "."

-- Whether `root_scoped_blocked_policy_overlapping_repository` finds a decision.
unfoldable pub blocked_policy_overlaps :
    Assoc RepositoryId RepositoryRecord → List PolicyDecision → String → StoreResult Bool
blocked_policy_overlaps repositories [] root_path = ok false
blocked_policy_overlaps repositories (d ∷ decisions) root_path =
    let rest = blocked_policy_overlaps repositories decisions root_path in
    if is_root_scoped_repository_block d
    then (do
      r ← ok_or (get repositories d.repository_id) (
          invalid_reference "policy_decisions"
            "policy decision {} references missing repository {}")
      if repository_roots_strictly_overlap root_path r.root_path then ok true else rest)
    else rest

-- A repository with a root above or below, one of the two blocked.
unfoldable pub blocked_overlap : RepositoryRecord → RepositoryRecord → Bool
blocked_overlap r existing =
    repository_roots_strictly_overlap r.root_path existing.root_path
    && (r.trust_state == Repository.blocked || existing.trust_state == Repository.blocked)

unfoldable pub create_repository_draft :
    RepositoryRecord → InMemoryInner → StoreResult (Draft (Unit {0}))
unfolding blocked_overlap
create_repository_draft r inner = do
  reject_if (any (λ existing. existing.root_path == r.root_path) (values inner.repositories))
      (duplicate_id "repositories" "root_path {}")
  reject_if (any (λ existing. blocked_overlap r existing) (values inner.repositories))
      (conflict "repositories" "root_path {} conflicts with blocked repository root {}")
  overlaps ← blocked_policy_overlaps inner.repositories (values inner.policy_decisions) r.root_path
  reject_if overlaps (
      conflict "repositories"
        "root_path {} conflicts with blocked policy root {} from policy decision {}")
  repositories ← insert_record inner.repositories r.id r "repositories"
  ok (record { inner = record inner { repositories = repositories }; result = tt; events = [] })

-- A policy decision that blocks a whole repository must not reach into another one.
unfoldable pub check_root_scoped_block : InMemoryInner → PolicyDecision → StoreResult (Unit {0})
check_root_scoped_block inner d =
    if is_root_scoped_repository_block d
    then (do
      r ← ok_or (get inner.repositories d.repository_id) (not_found "repositories" d.repository_id)
      reject_if
          (any
            (λ existing.
              existing.id != r.id
              && repository_roots_strictly_overlap r.root_path existing.root_path)
            (values inner.repositories))
          (conflict "policy_decisions"
            "repository root_path {} conflicts with repository root_path {}"))
    else ok tt

unfoldable pub create_policy_decision_draft :
    PolicyDecision → InMemoryInner → StoreResult (Draft (Unit {0}))
unfolding check_root_scoped_block
create_policy_decision_draft d inner = do
  ensure_ref_exists (contains_key inner.repositories d.repository_id) "repositories" d.repository_id
  check_root_scoped_block inner d
  policy_decisions ← insert_record inner.policy_decisions d.id d "policy_decisions"
  ok (record {
    inner = record inner { policy_decisions = policy_decisions };
    result = tt;
    events = [];
  })

module _ (host : Host) where
  unfoldable pub create_repository :
      RepositoryRecord → InMemoryInner → StoreResult (Unit {0}) × InMemoryInner
  create_repository r inner = elim (validate_repository_record r) [
    | ok _ ↦ mutate host (create_repository_draft r) inner
    | err e ↦ (err e, inner)
  ]

  unfoldable pub create_policy_decision :
      PolicyDecision → InMemoryInner → StoreResult (Unit {0}) × InMemoryInner
  create_policy_decision d = mutate host (create_policy_decision_draft d)
