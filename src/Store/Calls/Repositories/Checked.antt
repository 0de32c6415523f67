-- ===== src/Store/Calls/Repositories/Checked.antt =====
-- What the checks of repositories keep over a history, crates/atelia-core/src/store.rs.
use atelia_secretary.Store.Calls.Writes.{insert_record-insert}
use atelia_secretary.Store.Mutate.Keeps.{DraftKeeps}
use atelia_secretary.Store.Calls.Frames.{
  result_and_audit-frame, audit-frame, result-frame, invocation-frame, release-frame,
  find_lock-frame, acquire-frame, migration-frame, lock-frame, policy-frame, two_updates-frame,
  update-frame, event-frame, job-frame,
}
use atelia_secretary.Store.Calls.Induction.{CallKeeps}
use atelia_secretary.Domain.Ids.{RepositoryId}
use atelia_secretary.Domain.Repository.{RepositoryRecord}
use atelia_secretary.Store.Repositories.{
  blocked_overlap, validate_repository_record, create_repository_draft,
}
use atelia_secretary.Store.Paths.{same_components, components, repository_roots_strictly_overlap}
use atelia_secretary.Store.Ledger.{with_job, with_event}
use atelia_secretary.Store.Mutate.{Host}
use atelia_secretary.Domain.Repository as Repository
use atelia_secretary.Domain.Repository.{trust_state_eq}
use atelia_secretary.Base.{
  true, refl, List, [], ◌∷◌, get-insert, Ensures-pure, insert, any-values-get, reject_if-false,
  values, ◌==◌, Ensures-bind, Ensures-seq, any, none, ok, false, some, List, String, Assoc, ◌≡◌,
  get, string_eq, arith,
}
use atelia_secretary.Store.Calls.{
  Call, repository_call, job_call, event_call, update_call, two_updates_call, policy_call,
  lock_call, migration_call, acquire_call, find_lock_call, release_call, invocation_call,
  result_call, audit_call, result_and_audit_call,
}
use atelia_secretary.Store.State.{InMemoryInner}

-- What the checks of the store say of its repositories.
pub record AreChecked (m : Assoc RepositoryId RepositoryRecord) : Type 0 where
  pub valid :
      (id : RepositoryId) (r : RepositoryRecord)
      → get m id ≡ some r
      → (r.id ≡ id) × (validate_repository_record r ≡ ok tt)
  pub distinct :
      (id id' : RepositoryId) (r r' : RepositoryRecord)
      → get m id ≡ some r
      → get m id' ≡ some r'
      → r.root_path ≡ r'.root_path
      → id ≡ id'
  pub apart :
      (id id' : RepositoryId) (r r' : RepositoryRecord)
      → get m id ≡ some r
      → get m id' ≡ some r'
      → r.trust_state ≡ Repository.blocked
      → repository_roots_strictly_overlap r.root_path r'.root_path ≡ false

abbrev pub HasCheckedRepositories : InMemoryInner → Type 0
HasCheckedRepositories inner = AreChecked inner.repositories

same_components-sym : (xs ys : List String) → same_components xs ys ≡ same_components ys xs
unfolding same_components
same_components-sym [] [] = refl
same_components-sym [] (y ∷ ys) = refl
same_components-sym (x ∷ xs) [] = refl
same_components-sym (x ∷ xs) (y ∷ ys) = ground (arith, same_components-sym xs ys)

same_components_refl : (xs : List String) → same_components xs xs ≡ true
unfolding same_components
same_components_refl [] = refl
same_components_refl (x ∷ xs) = ground (arith, same_components_refl xs)

pub overlap-sym :
    (left right : String)
    → repository_roots_strictly_overlap left right ≡ repository_roots_strictly_overlap right left
unfolding repository_roots_strictly_overlap
overlap-sym left right = ground (arith, same_components-sym (components left) (components right))

overlap_irrefl : (root : String) → repository_roots_strictly_overlap root root ≡ false
unfolding repository_roots_strictly_overlap
overlap_irrefl root = ground (arith, same_components_refl (components root))

module _ (m : Assoc RepositoryId RepositoryRecord) (r : RepositoryRecord) (h : AreChecked m)
    (v : validate_repository_record r ≡ ok tt) (absent : get m r.id ≡ none)
    (fresh : any (λ existing. existing.root_path == r.root_path) (values m) ≡ false)
    (clear : any (λ existing. blocked_overlap r existing) (values m) ≡ false) where
  other_root :
      (id : RepositoryId) (other : RepositoryRecord)
      → get m id ≡ some other
      → other.root_path ≡ r.root_path
      → ⊥
  other_root id other g e =
      ground (arith, any-values-get (λ existing. existing.root_path == r.root_path) m id other)

  other_apart :
      (id : RepositoryId) (other : RepositoryRecord)
      → get m id ≡ some other
      → ((r.trust_state ≡ Repository.blocked)
          → repository_roots_strictly_overlap r.root_path other.root_path ≡ false)
        × ((other.trust_state ≡ Repository.blocked)
            → repository_roots_strictly_overlap other.root_path r.root_path ≡ false)
  unfolding blocked_overlap
  other_apart id other g = ground (
    arith,
    any-values-get (λ existing. blocked_overlap r existing) m id other,
    overlap-sym other.root_path r.root_path,
  )

  valid_with :
      (id : RepositoryId) (a : RepositoryRecord)
      → get (insert m r.id r) id ≡ some a
      → (a.id ≡ id) × (validate_repository_record a ≡ ok tt)
  valid_with id a g = ground (arith, get-insert m r.id id r, h.valid id a)

  distinct_with :
      (id id' : RepositoryId) (a b : RepositoryRecord)
      → get (insert m r.id r) id ≡ some a
      → get (insert m r.id r) id' ≡ some b
      → a.root_path ≡ b.root_path
      → id ≡ id'
  distinct_with id id' a b g g' e = ground (
    arith,
    get-insert m r.id id r,
    get-insert m r.id id' r,
    other_root id a,
    other_root id' b,
    h.distinct id id' a b,
  )

  apart_with :
      (id id' : RepositoryId) (a b : RepositoryRecord)
      → get (insert m r.id r) id ≡ some a
      → get (insert m r.id r) id' ≡ some b
      → a.trust_state ≡ Repository.blocked
      → repository_roots_strictly_overlap a.root_path b.root_path ≡ false
  apart_with id id' a b g g' e = ground (
    arith,
    get-insert m r.id id r,
    get-insert m r.id id' r,
    other_apart id a,
    other_apart id' b,
    h.apart id id' a b,
    overlap_irrefl r.root_path,
  )

  insert-AreChecked : AreChecked (insert m r.id r)
  insert-AreChecked = record { valid = valid_with; distinct = distinct_with; apart = apart_with }

repository-HasCheckedRepositories :
    (r : RepositoryRecord) (inner : InMemoryInner)
    → HasCheckedRepositories inner
    → validate_repository_record r ≡ ok tt
    → DraftKeeps HasCheckedRepositories (create_repository_draft r inner)
unfolding create_repository_draft
repository-HasCheckedRepositories r inner h v = Ensures-seq _ _ _ λ fresh.
    Ensures-seq _ _ _ λ clear. Ensures-bind _ _ _ λ overlaps p. Ensures-seq _ _ _ λ unblocked.
      Ensures-bind _ _ _ λ m inserted.
        let (absent, same) = insert_record-insert inner.repositories m r.id r _ inserted in
        let all : AreChecked m = rw same (
          insert-AreChecked inner.repositories r h v absent (reject_if-false _ _ fresh)
            (reject_if-false _ _ clear)) in
        Ensures-pure _ _ all

pub keeps-HasCheckedRepositories :
    (host : Host) (inner : InMemoryInner) (call : Call)
    → HasCheckedRepositories inner
    → CallKeeps HasCheckedRepositories host inner call
unfolding with_event with_job
keeps-HasCheckedRepositories host inner (repository_call r) h =
    repository-HasCheckedRepositories r inner h
keeps-HasCheckedRepositories host inner (job_call j e) h =
    job-frame HasCheckedRepositories host (λ s e n p. p) (λ s j p. p) inner h j e
keeps-HasCheckedRepositories host inner (event_call e) h =
    event-frame HasCheckedRepositories host (λ s e n p. p) (λ s j p. p) inner h e
keeps-HasCheckedRepositories host inner (update_call j e) h =
    update-frame HasCheckedRepositories host (λ s e n p. p) (λ s j p. p) inner h j e
keeps-HasCheckedRepositories host inner (two_updates_call j e k f) h =
    two_updates-frame HasCheckedRepositories host (λ s e n p. p) (λ s j p. p) inner h j e k f
keeps-HasCheckedRepositories host inner (policy_call d) h =
    policy-frame HasCheckedRepositories inner (λ m. h) d
keeps-HasCheckedRepositories host inner (lock_call l) h =
    lock-frame HasCheckedRepositories inner (λ m. h) l
keeps-HasCheckedRepositories host inner (migration_call r) h =
    λ valid. migration-frame HasCheckedRepositories inner (λ m. h) r
keeps-HasCheckedRepositories host inner (acquire_call id leader safe timeout at) h =
    acquire-frame HasCheckedRepositories inner (λ m. h) id leader safe timeout at
keeps-HasCheckedRepositories host inner (find_lock_call now) h =
    find_lock-frame HasCheckedRepositories inner (λ m. h) now
keeps-HasCheckedRepositories host inner (release_call id leader at) h =
    release-frame HasCheckedRepositories inner (λ m. h) id leader at
keeps-HasCheckedRepositories host inner (invocation_call r) h =
    invocation-frame HasCheckedRepositories inner (λ m. h) r
keeps-HasCheckedRepositories host inner (result_call r) h =
    result-frame HasCheckedRepositories inner (λ m. h) r
keeps-HasCheckedRepositories host inner (audit_call r) h =
    audit-frame HasCheckedRepositories inner (λ m. h) r
keeps-HasCheckedRepositories host inner (result_and_audit_call j r e a f) h =
    result_and_audit-frame HasCheckedRepositories host (λ s e n p. p) (λ s j p. p) inner h j r e a f
      (λ checked. h) (λ s m p. p)
