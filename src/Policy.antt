-- ===== src/Policy.antt =====
-- The default policy engine, crates/atelia-core/src/policy.rs. The capability that a name stands
-- for is in Policy/Names.antt; a decision's fresh identifier and its time are arguments.
pub mod Names
pub mod Safety
pub mod Tests
use atelia_secretary.Base.{
  String, ℕ, Bool, true, false, ◌&&◌, not, Option, none, some, [], ◌==◌, if◌then◌else◌,
}
use atelia_secretary.Domain.Time.{LedgerTimestamp}
use atelia_secretary.Domain.Ids.{RepositoryId, PolicyDecisionId}
use atelia_secretary.Domain.Repository.{Actor, RepositoryTrustState, trust_state_eq}
use atelia_secretary.Domain.Repository
use atelia_secretary.Domain.Policy.{
  RiskTier, r0, r1, r2, r3, r4, PolicyOutcome, allowed, audited, needs_approval, blocked,
  ResourceScope, PolicyDecision,
}
use Names.{
  Capability, informational, filesystem_read, filesystem_write, process_exec,
  broad_repository_mutation, destructive_repository_action, external_network_or_service,
  secret_access, unsupported, from_name, is_repository_mutating,
}

abbrev pub policy_schema_version : ℕ
policy_schema_version = 1

abbrev pub default_policy_version : String
default_policy_version = "policy-default-v1"

abbrev pub reason_repository_blocked : String
reason_repository_blocked = "repository_blocked"

pub record PolicyInput : Type 0 where
  pub requester : Actor
  pub repository_id : RepositoryId
  pub requested_capability : String
  pub resource_scope : ResourceScope
  pub tool_id : Option String
  pub provider_id : Option String
  pub declared_effect : String
  pub current_trust_state : RepositoryTrustState
  pub approval_available : Bool
  pub policy_version : String
  pub registered_scope : Bool
  pub broad_or_unbounded : Bool

-- `PolicyInput::new`
unfoldable pub new_input :
    Actor
    → RepositoryId
    → String
    → ResourceScope
    → String
    → RepositoryTrustState
    → Bool
    → String
    → PolicyInput
new_input requester repository_id capability scope effect trust_state approval version = record {
  requester = requester;
  repository_id = repository_id;
  requested_capability = capability;
  resource_scope = scope;
  tool_id = none;
  provider_id = none;
  declared_effect = effect;
  current_trust_state = trust_state;
  approval_available = approval;
  policy_version = version;
  registered_scope = true;
  broad_or_unbounded = false;
}

unfoldable pub with_tool_id : PolicyInput → String → PolicyInput
with_tool_id input tool_id = record input { tool_id = some tool_id }

unfoldable pub outside_registered_scope : PolicyInput → PolicyInput
outside_registered_scope input = record input { registered_scope = false }

unfoldable pub broad_or_unbounded : PolicyInput → PolicyInput
broad_or_unbounded input = record input { broad_or_unbounded = true }

pub record RuleDecision : Type 0 where
  pub outcome : PolicyOutcome
  pub risk_tier : RiskTier
  pub reason_code : String
  pub user_reason : String

abbrev rule : PolicyOutcome → RiskTier → String → String → RuleDecision
rule outcome risk_tier reason_code user_reason = record {
  outcome = outcome;
  risk_tier = risk_tier;
  reason_code = reason_code;
  user_reason = user_reason;
}

-- The `match capability` of `evaluate_rule`.
unfoldable pub capability_rule : Capability → RepositoryTrustState → Bool → RuleDecision
capability_rule informational trust broad =
    rule allowed r0 "informational_allowed"
      "Informational status or capability discovery is allowed."
capability_rule filesystem_read trust broad =
    if trust == Repository.read_only
    then rule audited r1 "bounded_read_audited_read_only"
        "Bounded filesystem read is allowed in a read-only repository with audit evidence."
    else rule allowed r1 "bounded_read_allowed"
        "Bounded filesystem read is allowed inside the registered repository scope."
capability_rule filesystem_write trust broad =
    if broad
    then rule needs_approval r3 "filesystem_write_broad_or_unbounded_needs_approval"
        "Broad or unbounded filesystem write needs approval before it can run."
    else rule audited r2 "bounded_write_audited"
        "Filesystem modifications inside the registered repository scope require audit evidence."
capability_rule process_exec trust broad =
    if broad
    then rule needs_approval r3 "process_broad_or_unbounded_needs_approval"
        "Process execution is broad or unbounded and needs approval before it can run."
    else rule audited r2 "bounded_process_audited"
        "Process execution with explicit argv, cwd, timeout, and env allowlist requires audit evidence."
capability_rule broad_repository_mutation trust broad =
    rule needs_approval r3 "broad_repository_mutation_needs_approval"
      "Broad repository mutation needs approval before it can run."
capability_rule destructive_repository_action trust broad =
    rule blocked r4 "destructive_repository_action_blocked"
      "Destructive repository actions are blocked until explicit policy support exists."
capability_rule external_network_or_service trust broad =
    rule needs_approval r3 "external_network_or_service_needs_approval"
      "External network or service access needs approval before it can run."
capability_rule secret_access trust broad =
    rule needs_approval r3 "secret_access_needs_approval"
      "Secret access needs approval before it can run."
capability_rule unsupported trust broad =
    rule blocked r4 "unsupported_capability_blocked"
      "The requested capability is not supported by the default policy."

unfoldable pub evaluate_rule : PolicyInput → RuleDecision
unfolding capability_rule is_repository_mutating
evaluate_rule input =
    let capability = from_name input.requested_capability in
    if input.current_trust_state == Repository.blocked
    then rule blocked r4 reason_repository_blocked
        "The repository is blocked by policy, so the requested action cannot run."
    else if not input.registered_scope
    then rule blocked r4 "outside_registered_scope"
        "The requested resource is outside the registered repository scope."
    else if is_repository_mutating capability && input.current_trust_state == Repository.read_only
    then rule blocked r4 "repository_read_only"
        "The repository is read-only, so repository-mutating actions cannot run."
    else capability_rule capability input.current_trust_state input.broad_or_unbounded

unfoldable pub evaluate : PolicyDecisionId → LedgerTimestamp → PolicyInput → PolicyDecision
unfolding evaluate_rule
evaluate id now input =
    let rule = evaluate_rule input in
    record {
      id = id;
      schema_version = policy_schema_version;
      created_at = now;
      requester = input.requester;
      repository_id = input.repository_id;
      requested_capability = input.requested_capability;
      resource_scope = input.resource_scope;
      tool_id = input.tool_id;
      provider_id = input.provider_id;
      declared_effect = input.declared_effect;
      current_trust_state = input.current_trust_state;
      approval_available = input.approval_available;
      policy_version = input.policy_version;
      outcome = rule.outcome;
      risk_tier = rule.risk_tier;
      reason_code = rule.reason_code;
      user_reason = rule.user_reason;
      approval_request_ref = none;
      audit_ref = none;
      redactions = [];
    }
