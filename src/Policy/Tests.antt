-- ===== src/Policy/Tests.antt =====
-- The policy engine on a concrete input, crates/atelia-core/src/policy.rs.
use atelia_secretary.Policy.Names.{from_name}
use atelia_secretary.Policy.Safety.{evaluate-risk_tier, evaluate-Runs_iff, Permitted, Runs}
use atelia_secretary.Policy.{needs_approval, r3, r4, PolicyInput, evaluate}
use atelia_secretary.Domain.Policy.{PolicyOutcome}
use atelia_secretary.Base.{◌≡◌, ◌↔◌, none, true, false}
use atelia_secretary.Domain.Repository as Repository
use atelia_secretary.Domain.Repository.{blocked, Actor}

abbrev a_write : PolicyInput
a_write = record {
  requester = Actor.system "daemon";
  repository_id = "repo_1";
  requested_capability = "filesystem.write";
  resource_scope = record { kind = "path"; value = "README.md" };
  tool_id = none;
  provider_id = none;
  declared_effect = "write a file";
  current_trust_state = Repository.trusted;
  approval_available = true;
  policy_version = "policy-default-v1";
  registered_scope = true;
  broad_or_unbounded = false;
}

evaluate-Runs_iff_example :
    Runs (evaluate "pol_1" 5 a_write).outcome
    ↔ Permitted (from_name "filesystem.write") Repository.trusted true false
evaluate-Runs_iff_example = evaluate-Runs_iff "pol_1" 5 a_write

evaluate-risk_tier_example :
    (((evaluate "pol_1" 5 a_write).risk_tier ≡ r4)
      ↔ ((evaluate "pol_1" 5 a_write).outcome ≡ PolicyOutcome.blocked))
    × (((evaluate "pol_1" 5 a_write).risk_tier ≡ r3)
        ↔ ((evaluate "pol_1" 5 a_write).outcome ≡ needs_approval))
evaluate-risk_tier_example = evaluate-risk_tier "pol_1" 5 a_write
