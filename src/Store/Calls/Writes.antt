-- ===== src/Store/Calls/Writes.antt =====
-- What a successful `insert_record` says, crates/atelia-core/src/store.rs.
use atelia_secretary.Base.{
  ◌≡◌, String, Assoc, get, insert, none, ok, contains_key-false, reject_if-false, >>-eq-ok,
  string_eq,
}
use atelia_secretary.Store.Checks.{insert_record}

pub insert_record-insert :
    {R : Type 0} (m m' : Assoc String R) (id : String) (r : R) (name : String)
    → insert_record m id r name ≡ ok m'
    → (get m id ≡ none) × (m' ≡ insert m id r)
unfolding insert_record
insert_record-insert m m' id r name e =
    let (unused, inserted) = >>-eq-ok _ _ e in
    (contains_key-false m id (reject_if-false _ _ unused), cc inserted)
