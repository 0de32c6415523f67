-- ===== src/Store/Checks.antt =====
-- The small checks and map operations that the store's operations share,
-- crates/atelia-core/src/store.rs.
use atelia_secretary.Base.{
  String, ℕ, ◌+◌, Bool, not, Option, none, some, Assoc, ◌!=◌, get, insert, contains_key, ok, ◌>>◌,
  reject_if, ok_or, leb, if◌then◌else◌, string_eq,
}
use atelia_secretary.Domain.Time.{u64_max}
use atelia_secretary.Domain.Ids.{RepositoryId}
use atelia_secretary.Store.State.{
  StoreResult, InMemoryInner, not_found, duplicate_id, invalid_reference, sequence_overflow,
}

-- `Option::filter`
abbrev pub only_if {ℓ} : {A : Type ℓ} → (A → Bool) → Option A → Option A
only_if p none = none
only_if p (some a) = if p a then some a else none

-- `u64::checked_add`
abbrev pub checked_add : ℕ → ℕ → Option ℕ
checked_add a b = if leb (a + b) u64_max then some (a + b) else none

unfoldable pub ensure_same_repository :
    String → String → RepositoryId → RepositoryId → StoreResult (Unit {0})
ensure_same_repository collection context expected actual =
    reject_if (actual != expected)
      (invalid_reference collection "{context} belongs to repository {}, not {}")

unfoldable pub ensure_ref_exists : Bool → String → String → StoreResult (Unit {0})
ensure_ref_exists exists collection id = reject_if (not exists) (not_found collection id)

unfoldable pub ensure_ref_absent : Bool → String → String → StoreResult (Unit {0})
ensure_ref_absent absent collection id = reject_if (not absent) (duplicate_id collection id)

unfoldable pub insert_record :
    {Record : Type 0}
    → Assoc String Record
    → String
    → Record
    → String
    → StoreResult (Assoc String Record)
insert_record collection id r collection_name = do
  reject_if (contains_key collection id) (duplicate_id collection_name id)
  ok (insert collection id r)

unfoldable pub get_record :
    {Record : Type 0} → Assoc String Record → String → String → StoreResult Record
get_record collection id collection_name = ok_or (get collection id) (not_found collection_name id)

unfoldable pub ensure_event_sequence_capacity : InMemoryInner → ℕ → StoreResult ℕ
ensure_event_sequence_capacity inner event_count =
    ok_or (checked_add inner.next_event_sequence event_count) sequence_overflow
