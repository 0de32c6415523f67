-- ===== src/Domain/Tool.antt =====
-- Tool invocations, tool results and audit records, crates/atelia-core/src/domain.rs. An i64 of a
-- `StructuredValue` is held as the distance from i64::MIN, like a timestamp.
use atelia_secretary.Base.{String, ℕ, Bool, Option, List}
use atelia_secretary.Domain.Time.{LedgerTimestamp}
use atelia_secretary.Domain.Ids.{
  RepositoryId, JobId, PolicyDecisionId, ToolInvocationId, ToolResultId, AuditRecordId,
}
use atelia_secretary.Domain.Repository.{Actor, RedactionMarker}
use atelia_secretary.Domain.Policy.{OutputRef, ArtifactRef}

pub record ResolvedPath : Type 0 where
  pub requested_path : String
  pub resolved_path : String
  pub display_path : String

pub record ToolInvocation : Type 0 where
  pub id : ToolInvocationId
  pub schema_version : ℕ
  pub created_at : LedgerTimestamp
  pub job_id : JobId
  pub repository_id : RepositoryId
  pub policy_decision_id : PolicyDecisionId
  pub actor : Actor
  pub tool_id : String
  pub requested_capability : String
  pub args_summary : String
  pub resolved_paths : List ResolvedPath
  pub timeout_millis : Option ℕ
  pub redactions : List RedactionMarker

pub data ToolResultStatus : Type 0 where
  succeeded failed canceled timed_out : ToolResultStatus

pub data StructuredValue : Type 0 where
  null : StructuredValue
  boolean : Bool → StructuredValue
  integer : ℕ → StructuredValue
  text : String → StructuredValue
  text_list : List String → StructuredValue

pub record ToolResultField : Type 0 where
  pub key : String
  pub value : StructuredValue

pub record TruncationMetadata : Type 0 where
  pub original_bytes : ℕ
  pub retained_bytes : ℕ
  pub reason : String

pub record ToolResult : Type 0 where
  pub id : ToolResultId
  pub schema_version : ℕ
  pub created_at : LedgerTimestamp
  pub invocation_id : ToolInvocationId
  pub tool_id : String
  pub status : ToolResultStatus
  pub schema_ref : Option String
  pub fields : List ToolResultField
  pub evidence_refs : List ArtifactRef
  pub output_refs : List OutputRef
  pub truncation : Option TruncationMetadata
  pub redactions : List RedactionMarker

pub record AuditRecord : Type 0 where
  pub id : AuditRecordId
  pub schema_version : ℕ
  pub created_at : LedgerTimestamp
  pub actor : Actor
  pub repository_id : RepositoryId
  pub requested_capability : String
  pub policy_decision_id : PolicyDecisionId
  pub tool_invocation_id : Option ToolInvocationId
  pub effect_summary : String
  pub output_refs : List OutputRef
  pub redactions : List RedactionMarker
