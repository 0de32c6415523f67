-- ===== src/Domain/Ids.antt =====
-- The identifiers of crates/atelia-core/src/domain.rs: texts with a prefix for each kind. Whether
-- the rest of an identifier is a UUID is decided by the uuid crate, the parameter `parses_uuid`.
use atelia_secretary.Base.{String, Bool, true, false, none, some, not, ◌&&◌, strip_prefix}

abbrev pub RepositoryId : Type 0
RepositoryId = String

abbrev pub JobId : Type 0
JobId = String

abbrev pub JobEventId : Type 0
JobEventId = String

abbrev pub PolicyDecisionId : Type 0
PolicyDecisionId = String

abbrev pub LockDecisionId : Type 0
LockDecisionId = String

abbrev pub ToolInvocationId : Type 0
ToolInvocationId = String

abbrev pub ToolResultId : Type 0
ToolResultId = String

abbrev pub AuditRecordId : Type 0
AuditRecordId = String

abbrev pub SchemaMigrationId : Type 0
SchemaMigrationId = String

abbrev pub OutputRefId : Type 0
OutputRefId = String

abbrev pub ArtifactRefId : Type 0
ArtifactRefId = String

is_empty : String → Bool
is_empty String.[] = true
is_empty (String.◌∷◌ c s) = false

-- `try_from_string(value).is_ok()` of the identifier type with this prefix.
unfoldable pub try_from_string_is_ok : (String → Bool) → String → String → Bool
unfolding is_empty
try_from_string_is_ok parses_uuid prefix value = elim (strip_prefix prefix value) [
  | none ↦ false
  | some uuid_part ↦ not (is_empty uuid_part) && parses_uuid uuid_part
]
