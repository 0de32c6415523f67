-- ===== src/Domain/Repository.antt =====
-- Repositories, actors and the markers that all records share, crates/atelia-core/src/domain.rs.
use atelia_secretary.Base.{String, ℕ, Option, none, List, [], ◌∷◌, Eq, string_discrete}
use atelia_secretary.Domain.Time.{LedgerTimestamp}
use atelia_secretary.Domain.Ids.{RepositoryId}

abbrev pub domain_schema_version : ℕ
domain_schema_version = 1

pub data Actor : Type 0 where
  user : String → Option String → Actor
  agent : String → Option String → Actor
  extension : String → Actor
  system : String → Actor

unfoldable pub Actor-discrete : Discrete Actor
Actor-discrete = hlevel string_discrete

instance abbrev pub actor_eq : Eq Actor
actor_eq = record { dec = Actor-discrete }

pub record RedactionMarker : Type 0 where
  pub field_path : String
  pub reason : String
  pub redacted_at : LedgerTimestamp

pub record PathScope : Type 0 where
  pub root_path : String
  pub allowed_paths : List String

pub data RepositoryTrustState : Type 0 where
  trusted read_only blocked : RepositoryTrustState

unfoldable pub RepositoryTrustState-discrete : Discrete RepositoryTrustState
RepositoryTrustState-discrete = hlevel

instance abbrev pub trust_state_eq : Eq RepositoryTrustState
trust_state_eq = record { dec = RepositoryTrustState-discrete }

pub record RepositoryMetadata : Type 0 where
  pub observed_at : LedgerTimestamp
  pub vcs_kind : Option String
  pub branch : Option String
  pub head_revision : Option String

pub record RepositoryRecord : Type 0 where
  pub id : RepositoryId
  pub schema_version : ℕ
  pub created_at : LedgerTimestamp
  pub updated_at : LedgerTimestamp
  pub display_name : String
  pub root_path : String
  pub allowed_path_scope : PathScope
  pub trust_state : RepositoryTrustState
  pub owner_hint : Option String
  pub last_observed_metadata : Option RepositoryMetadata
  pub redactions : List RedactionMarker

-- `PathScope::repository`
unfoldable pub repository_scope : String → PathScope
repository_scope root_path = record { root_path = root_path; allowed_paths = root_path ∷ [] }

-- `RepositoryRecord::new`; the fresh identifier is an argument.
unfoldable pub new_repository :
    RepositoryId → String → String → RepositoryTrustState → LedgerTimestamp → RepositoryRecord
unfolding repository_scope
new_repository id display_name root_path trust_state created_at = record {
  id = id;
  schema_version = domain_schema_version;
  created_at = created_at;
  updated_at = created_at;
  display_name = display_name;
  root_path = root_path;
  allowed_path_scope = repository_scope root_path;
  trust_state = trust_state;
  owner_hint = none;
  last_observed_metadata = none;
  redactions = [];
}
