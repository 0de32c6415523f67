-- ===== src/Policy/Names.antt =====
-- The capability that a requested name stands for, crates/atelia-core/src/policy.rs.
use Prim.Native.Nat.{compare, Ordering}
use atelia_secretary.Base.{
  String, ℕ, ◌+◌, Bool, true, false, ◌&&◌, ◌||◌, Option, none, some, List, [], ◌∷◌, map, leb, trim,
  codes, if◌then◌else◌,
}

pub data Capability : Type 0 where
  informational filesystem_read filesystem_write process_exec : Capability
  broad_repository_mutation destructive_repository_action : Capability
  external_network_or_service secret_access unsupported : Capability

is_char : ℕ → ℕ → Bool
is_char a b = elim (compare a b) [ Ordering.eq ↦ true | _ ↦ false ]

-- `to_ascii_lowercase`, of one code point.
unfoldable pub to_ascii_lowercase : ℕ → ℕ
to_ascii_lowercase c = if leb b'A' c && leb c b'Z' then c + 32 else c

-- `replace(['_', '-', ':', '/'], ".")`, of one code point.
unfoldable pub to_dot : ℕ → ℕ
unfolding is_char
to_dot c = if is_char c b'_' || is_char c b'-' || is_char c b':' || is_char c b'/' then b'.' else c

unfoldable pub normalize : String → List ℕ
unfolding to_ascii_lowercase to_dot
normalize name = map (λ c. to_dot (to_ascii_lowercase c)) (codes (trim name))

same_codes : List ℕ → List ℕ → Bool
unfolding is_char
same_codes [] [] = true
same_codes (a ∷ name) (b ∷ word) = is_char a b && same_codes name word
same_codes _ _ = false

one_of : List ℕ → List String → Bool
unfolding same_codes
one_of name [] = false
one_of name (s ∷ rest) = same_codes name (codes s) || one_of name rest

-- The `match` of `from_name` on the normalized name.
unfoldable pub from_normalized : List ℕ → Capability
unfolding one_of
from_normalized name =
    if one_of name (
      "informational" ∷ "status" ∷ "health" ∷ "capability.discovery" ∷ "capabilities.list"
      ∷ "policy.preview" ∷ "policy.check" ∷ [])
    then informational
    else if one_of name (
        "filesystem.read" ∷ "filesystem.list" ∷ "filesystem.search" ∷ "filesystem.stat"
        ∷ "filesystem.diff" ∷ "fs.read" ∷ "fs.list" ∷ "fs.search" ∷ "fs.stat" ∷ "fs.diff" ∷ [])
    then filesystem_read
    else if one_of name (
        "filesystem.write" ∷ "filesystem.patch" ∷ "filesystem.delete" ∷ "filesystem.move"
        ∷ "fs.write" ∷ "fs.patch" ∷ "fs.delete" ∷ "fs.move" ∷ [])
    then filesystem_write
    else if one_of name
        ("process.exec" ∷ "process.execute" ∷ "process.run" ∷ "proc.exec" ∷ "proc.run" ∷ [])
    then process_exec
    else if one_of name (
        "repository.mutate.broad" ∷ "repo.mutate.broad" ∷ "repository.broad.mutation"
        ∷ "repo.broad.mutation" ∷ [])
    then broad_repository_mutation
    else if one_of name (
        "repository.destructive" ∷ "repo.destructive" ∷ "repository.delete" ∷ "repo.delete"
        ∷ "repository.reset.hard" ∷ "repo.reset.hard" ∷ [])
    then destructive_repository_action
    else if one_of name (
        "network.external" ∷ "external.network" ∷ "service.external" ∷ "external.service"
        ∷ "network.call" ∷ "service.call" ∷ [])
    then external_network_or_service
    else if one_of name ("secret.access" ∷ "secrets.access" ∷ "secret.read" ∷ "secrets.read" ∷ [])
    then secret_access
    else unsupported

unfoldable pub from_name : String → Capability
unfolding normalize from_normalized
from_name name = from_normalized (normalize name)

unfoldable pub is_repository_mutating : Capability → Bool
is_repository_mutating filesystem_write = true
is_repository_mutating process_exec = true
is_repository_mutating broad_repository_mutation = true
is_repository_mutating destructive_repository_action = true
is_repository_mutating _ = false

unfoldable pub canonicalize_job_requested_capability : String → Option String
canonicalize_job_requested_capability name = elim (from_name name) [
  | informational ↦ some "capability.discovery"
  | _ ↦ none
]

-- `normalized_requested_capability` of crates/atelia-core/src/runtime.rs.
unfoldable pub normalized_requested_capability : String → String
unfolding canonicalize_job_requested_capability
normalized_requested_capability capability =
    elim (canonicalize_job_requested_capability (trim capability)) [
      | some canonical ↦ canonical
      | none ↦ trim capability
    ]
