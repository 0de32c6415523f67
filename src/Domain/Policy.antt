-- ===== src/Domain/Policy.antt =====
-- Policy records of crates/atelia-core/src/domain.rs.
use atelia_secretary.Base.{String, ℕ, Bool, Option, List, Eq, string_discrete}
use atelia_secretary.Domain.Time.{LedgerTimestamp}
use atelia_secretary.Domain.Ids.{
  RepositoryId, PolicyDecisionId, OutputRefId, ArtifactRefId, AuditRecordId,
}
use atelia_secretary.Domain.Repository.{Actor, RepositoryTrustState, RedactionMarker}

pub data RiskTier : Type 0 where
  r0 r1 r2 r3 r4 : RiskTier

pub data PolicyOutcome : Type 0 where
  allowed audited needs_approval blocked : PolicyOutcome

unfoldable pub PolicyOutcome-discrete : Discrete PolicyOutcome
PolicyOutcome-discrete = hlevel

instance abbrev pub outcome_eq : Eq PolicyOutcome
outcome_eq = record { dec = PolicyOutcome-discrete }

pub record ResourceScope : Type 0 where
  pub kind : String
  pub value : String

pub record OutputRef : Type 0 where
  pub id : OutputRefId
  pub uri : String
  pub media_type : String
  pub label : Option String
  pub digest : Option String

pub record ArtifactRef : Type 0 where
  pub id : ArtifactRefId
  pub uri : String
  pub media_type : String
  pub label : Option String
  pub digest : Option String

pub record PolicyDecision : Type 0 where
  pub id : PolicyDecisionId
  pub schema_version : ℕ
  pub created_at : LedgerTimestamp
  pub requester : Actor
  pub repository_id : RepositoryId
  pub requested_capability : String
  pub resource_scope : ResourceScope
  pub tool_id : Option String
  pub provider_id : Option String
  pub declared_effect : String
  pub current_trust_state : RepositoryTrustState
  pub approval_available : Bool
  pub policy_version : String
  pub outcome : PolicyOutcome
  pub risk_tier : RiskTier
  pub reason_code : String
  pub user_reason : String
  pub approval_request_ref : Option OutputRef
  pub audit_ref : Option AuditRecordId
  pub redactions : List RedactionMarker

-- `PolicySummary`, kept in a job.
pub record PolicySummary : Type 0 where
  pub decision_id : Option PolicyDecisionId
  pub outcome : PolicyOutcome
  pub risk_tier : RiskTier
  pub reason_code : String

unfoldable pub PolicySummary-discrete : Discrete PolicySummary
PolicySummary-discrete = hlevel string_discrete

instance abbrev pub summary_eq : Eq PolicySummary
summary_eq = record { dec = PolicySummary-discrete }
