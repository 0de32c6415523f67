-- ===== src/Policy/Safety.antt =====
-- What the default policy lets run, crates/atelia-core/src/policy.rs.
use atelia_secretary.Base.{◌≡◌, ◌≢◌, ◌↔◌, ◌⊎◌, Bool, true, false, arith}
use atelia_secretary.Domain.Time.{LedgerTimestamp}
use atelia_secretary.Domain.Ids.{PolicyDecisionId}
use atelia_secretary.Domain.Repository
use atelia_secretary.Domain.Repository.{RepositoryTrustState}
use atelia_secretary.Domain.Policy.{
  PolicyOutcome, allowed, audited, needs_approval, blocked, r3, r4,
}
use atelia_secretary.Policy.Names.{
  Capability, informational, filesystem_read, filesystem_write, process_exec, from_name,
}
use atelia_secretary.Policy.{PolicyInput, evaluate}

-- The outcomes after which a job runs without anybody's approval.
abbrev pub Runs : PolicyOutcome → Type 0
Runs outcome = (outcome ≡ allowed) ⊎ (outcome ≡ audited)

-- The specification: reading and asking, anywhere registered and not blocked; bounded writing and
-- bounded processes only where the repository is trusted.
abbrev pub Permitted : Capability → RepositoryTrustState → Bool → Bool → Type 0
Permitted capability trust registered broad =
    (registered ≡ true)
    × (((trust ≢ Repository.blocked)
          × ((capability ≡ informational) ⊎ (capability ≡ filesystem_read)))
        ⊎ ((trust ≡ Repository.trusted)
            × (broad ≡ false)
            × ((capability ≡ filesystem_write) ⊎ (capability ≡ process_exec))))

module _ (id : PolicyDecisionId) (now : LedgerTimestamp) (input : PolicyInput) where
  -- The engine lets an action run exactly when the specification permits it.
  pub evaluate-Runs_iff :
      Runs (evaluate id now input).outcome
      ↔ Permitted
          (from_name input.requested_capability)
          input.current_trust_state
          input.registered_scope
          input.broad_or_unbounded
  unfolding evaluate
  evaluate-Runs_iff = (λ r. ground arith, λ p. ground arith)

  -- The risk tier says the outcome: R4 is blocked, R3 waits for approval, and below R3 the action runs.
  pub evaluate-risk_tier :
      (((evaluate id now input).risk_tier ≡ r4) ↔ ((evaluate id now input).outcome ≡ blocked))
      × (((evaluate id now input).risk_tier ≡ r3)
          ↔ ((evaluate id now input).outcome ≡ needs_approval))
  unfolding evaluate
  evaluate-risk_tier = ground arith
