-- ===== src/Store/Calls/Repositories.antt =====
-- The repositories over a history, crates/atelia-core/src/store.rs.
mod Checked
use atelia_secretary.Store.Calls.Repositories.Checked.{
  AreChecked, HasCheckedRepositories, keeps-HasCheckedRepositories, overlap-sym,
}
use atelia_secretary.Store.Calls.Writes.{insert_record-insert}
use atelia_secretary.Store.Mutate.Keeps.{DraftKeeps}
use atelia_secretary.Store.Calls.Frames.{
  result_and_audit-frame, audit-frame, result-frame, invocation-frame, release-frame,
  find_lock-frame, acquire-frame, migration-frame, lock-frame, policy-frame, two_updates-frame,
  update-frame, event-frame, job-frame,
}
use atelia_secretary.Store.Calls.Induction.{run-keeps, CallKeeps}
use atelia_secretary.Domain.Ids.{RepositoryId}
use atelia_secretary.Domain.Repository.{RepositoryRecord}
use atelia_secretary.Store.Repositories.{
  blocked_overlap, validate_repository_record, create_repository_draft,
}
use atelia_secretary.Store.Paths.{
  same_components, is_prefix, components, repository_roots_strictly_overlap,
}
use atelia_secretary.Store.Ledger.{with_job, with_event}
use atelia_secretary.Store.Mutate.{Host}
use atelia_secretary.Domain.Repository as Repository
use atelia_secretary.Domain.Repository.{trust_state_eq}
use atelia_secretary.Base.{
  ◌≢◌, ◌++◌, is_blank, >>-eq-ok, ne→path, true, refl, List, [], ◌∷◌, get-insert, Ensures-pure,
  insert, any-values-get, reject_if-false, values, ◌==◌, Ensures-bind, Ensures-seq, any, none, ok,
  false, some, List, String, Assoc, ◌≡◌, get, string_eq, arith,
}
use atelia_secretary.Store.Calls.{
  Call, repository_call, job_call, event_call, update_call, two_updates_call, policy_call,
  lock_call, migration_call, acquire_call, find_lock_call, release_call, invocation_call,
  result_call, audit_call, result_and_audit_call, run,
}
use atelia_secretary.Store.State.{default_inner, InMemoryInner}

-- A root is a directory above another: its components are the first of the other's, which has more.
abbrev pub IsAbove : String → String → Type 0
IsAbove root below =
    (part : String) × (rest : List String) × components below ≡ components root ++ (part ∷ rest)

is_prefix-append :
    (xs : List String) (y : String) (ys : List String) → is_prefix xs (xs ++ (y ∷ ys)) ≡ true
unfolding is_prefix
is_prefix-append [] y ys = refl
is_prefix-append (x ∷ xs) y ys = ground (arith, is_prefix-append xs y ys)

same_components-append :
    (xs : List String) (y : String) (ys : List String) → same_components xs (xs ++ (y ∷ ys)) ≡ false
unfolding same_components
same_components-append [] y ys = refl
same_components-append (x ∷ xs) y ys = ground (arith, same_components-append xs y ys)

overlap_of_IsAbove :
    (root below : String) → IsAbove root below → repository_roots_strictly_overlap root below ≡ true
unfolding repository_roots_strictly_overlap
overlap_of_IsAbove root below (part, rest, e) = rw e (
    ground (
      arith,
      is_prefix-append (components root) part rest,
      same_components-append (components root) part rest,
    ))

-- Repositories are stored under their own identifiers, named, with a root that is not blank and
-- that their scope repeats; no two have the same text as their root, and the root of a blocked one
-- is no directory above or below that of any.
pub record AreIsolated (m : Assoc RepositoryId RepositoryRecord) : Type 0 where
  pub own_id : (id : RepositoryId) (r : RepositoryRecord) → get m id ≡ some r → r.id ≡ id
  pub named :
      (id : RepositoryId) (r : RepositoryRecord)
      → get m id ≡ some r
      → (is_blank r.display_name ≡ false)
        × (is_blank r.root_path ≡ false)
        × (r.allowed_path_scope.root_path ≡ r.root_path)
        × (r.allowed_path_scope.allowed_paths ≢ [])
  pub distinct :
      (id id' : RepositoryId) (r r' : RepositoryRecord)
      → get m id ≡ some r
      → get m id' ≡ some r'
      → r.root_path ≡ r'.root_path
      → id ≡ id'
  pub apart :
      (id id' : RepositoryId) (r r' : RepositoryRecord)
      → get m id ≡ some r
      → get m id' ≡ some r'
      → r.trust_state ≡ Repository.blocked
      → (¬ IsAbove r.root_path r'.root_path) × (¬ IsAbove r'.root_path r.root_path)

abbrev pub HasIsolatedRepositories : InMemoryInner → Type 0
HasIsolatedRepositories inner = AreIsolated inner.repositories

validated :
    (r : RepositoryRecord)
    → validate_repository_record r ≡ ok tt
    → (is_blank r.display_name ≡ false)
      × (is_blank r.root_path ≡ false)
      × (r.allowed_path_scope.root_path ≡ r.root_path)
      × (r.allowed_path_scope.allowed_paths ≢ [])
unfolding validate_repository_record
validated r v =
    let (display_name, v1) = >>-eq-ok _ _ v in
    let (root_path, v2) = >>-eq-ok _ _ v1 in
    let (same, some_path) = >>-eq-ok _ _ v2 in
    (
      reject_if-false _ _ display_name,
      reject_if-false _ _ root_path,
      ne→path r.allowed_path_scope.root_path r.root_path (reject_if-false _ _ same),
      λ none_allowed. absurd (cc (none_allowed, reject_if-false _ _ some_path)),
    )

AreChecked-AreIsolated : (m : Assoc RepositoryId RepositoryRecord) → AreChecked m → AreIsolated m
AreChecked-AreIsolated m h = record {
  own_id = λ id r g. (h.valid id r g).0;
  named = λ id r g. validated r (h.valid id r g).1;
  distinct = h.distinct;
  apart = λ id id' r r' g g' blocked.
      let clear = h.apart id id' r r' g g' blocked in
      (
        λ above. cc (clear, overlap_of_IsAbove r.root_path r'.root_path above),
        λ below. cc (
          clear,
          overlap-sym r.root_path r'.root_path,
          overlap_of_IsAbove r'.root_path r.root_path below,
        ),
      );
}

-- After any sequence of calls from the empty store, every repository is stored under its own
-- identifier, with a name and a root that are not blank, and a scope of the same root with some
-- path; no two have the same text as their root; and the components of a blocked one's root are
-- neither the beginning of those of another's with more to follow, nor such a continuation. (Two
-- texts with the same components, as with a trailing slash, may both be roots.)
pub run-HasIsolatedRepositories :
    (host : Host) (calls : List Call) → HasIsolatedRepositories (run host default_inner calls)
unfolding get
run-HasIsolatedRepositories host calls = AreChecked-AreIsolated _ (
    run-keeps HasCheckedRepositories host (keeps-HasCheckedRepositories host) default_inner calls
      (record {
        valid = λ id r g. absurd (cc);
        distinct = λ id id' r r' g. absurd (cc);
        apart = λ id id' r r' g. absurd (cc);
      }))
