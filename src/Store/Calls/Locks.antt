-- ===== src/Store/Calls/Locks.antt =====
-- Lock decisions over a history, crates/atelia-core/src/store.rs.
use atelia_secretary.Store.Calls.Frames.{
  result_and_audit-frame, audit-frame, result-frame, invocation-frame, release-frame,
  find_lock-frame, acquire-frame, migration-frame, policy-frame, two_updates-frame, update-frame,
  event-frame, job-frame, repository-frame,
}
use atelia_secretary.Store.Calls.Induction.{run-keeps, CallKeeps}
use atelia_secretary.Store.Mutate.Keeps.{DraftKeeps}
use atelia_secretary.Domain.Ids.{LockDecisionId}
use atelia_secretary.Domain.Lock.{LockDecision}
use atelia_secretary.Store.Ledger.{with_job, with_event}
use atelia_secretary.Store.Locks.{
  covers, is_active_lock_status, validate_lock_decision_timing, create_lock_decision_draft,
}
use atelia_secretary.Store.Mutate.{Host}
use atelia_secretary.Base.{
  get-insert, insert, false, values, reject_if-false, any, contains_key-false, true, Ensures-pure,
  ok, Ensures-bind, Ensures-seq, none, some, List, Assoc, ◌≡◌, get, string_eq, ◌&&◌, any-values-get,
  arith,
}
use atelia_secretary.Store.Calls.{
  Call, repository_call, job_call, event_call, update_call, two_updates_call, policy_call,
  lock_call, migration_call, acquire_call, find_lock_call, release_call, invocation_call,
  result_call, audit_call, result_and_audit_call, run,
}
use atelia_secretary.Store.State.{default_inner, InMemoryInner}

-- The locks that a store holds: every one is stored under its own identifier with consistent
-- times, and an active lock is the only active one on its scope of its repository.
pub record IsOrderly (locks : Assoc LockDecisionId LockDecision) : Type 0 where
  pub timed :
      (id : LockDecisionId) (lock : LockDecision)
      → get locks id ≡ some lock
      → (lock.id ≡ id) × (validate_lock_decision_timing lock ≡ ok tt)
  pub exclusive :
      (id id' : LockDecisionId) (lock other : LockDecision)
      → get locks id ≡ some lock
      → get locks id' ≡ some other
      → is_active_lock_status lock.status ≡ true
      → is_active_lock_status other.status ≡ true
      → lock.repository_id ≡ other.repository_id
      → lock.locked_scope ≡ other.locked_scope
      → id ≡ id'

abbrev pub HasOrderlyLocks : InMemoryInner → Type 0
HasOrderlyLocks inner = IsOrderly inner.lock_decisions

module _ (locks : Assoc LockDecisionId LockDecision) (lock : LockDecision) (h : IsOrderly locks)
    (absent : get locks lock.id ≡ none) (valid : validate_lock_decision_timing lock ≡ ok tt)
    (free : (is_active_lock_status lock.status
        && any (λ existing. covers lock existing) (values locks))
      ≡ false) where
  uncovered :
      (id : LockDecisionId) (other : LockDecision)
      → get locks id ≡ some other
      → is_active_lock_status lock.status ≡ true
      → is_active_lock_status other.status ≡ true
      → lock.repository_id ≡ other.repository_id
      → lock.locked_scope ≡ other.locked_scope
      → ⊥
  unfolding covers
  uncovered id other g a b r s =
      ground (arith, any-values-get (λ existing. covers lock existing) locks id other)

  timed_with :
      (id : LockDecisionId) (other : LockDecision)
      → get (insert locks lock.id lock) id ≡ some other
      → (other.id ≡ id) × (validate_lock_decision_timing other ≡ ok tt)
  timed_with id other g = ground (arith, get-insert locks lock.id id lock, h.timed id other)

  exclusive_with :
      (id id' : LockDecisionId) (a b : LockDecision)
      → get (insert locks lock.id lock) id ≡ some a
      → get (insert locks lock.id lock) id' ≡ some b
      → is_active_lock_status a.status ≡ true
      → is_active_lock_status b.status ≡ true
      → a.repository_id ≡ b.repository_id
      → a.locked_scope ≡ b.locked_scope
      → id ≡ id'
  exclusive_with id id' a b g g' p q r s = ground (
    arith,
    get-insert locks lock.id id lock,
    get-insert locks lock.id id' lock,
    uncovered id a,
    uncovered id' b,
    h.exclusive id id' a b,
  )

  insert-IsOrderly : IsOrderly (insert locks lock.id lock)
  insert-IsOrderly = record { timed = timed_with; exclusive = exclusive_with }

lock-HasOrderlyLocks :
    (lock : LockDecision) (inner : InMemoryInner)
    → HasOrderlyLocks inner
    → DraftKeeps HasOrderlyLocks (create_lock_decision_draft lock inner)
unfolding create_lock_decision_draft
lock-HasOrderlyLocks lock inner h = Ensures-seq _ _ _ λ unused. Ensures-seq _ _ _ λ valid.
    Ensures-seq _ _ _ λ repository. Ensures-bind _ _ _ λ decision found. Ensures-seq _ _ _ λ same.
      Ensures-seq _ _ _ λ owner. Ensures-seq _ _ _ λ free. Ensures-pure _ _ (
        insert-IsOrderly inner.lock_decisions lock h
          (contains_key-false _ _ (reject_if-false _ _ unused)) valid (reject_if-false _ _ free))

keeps-HasOrderlyLocks :
    (host : Host) (inner : InMemoryInner) (call : Call)
    → HasOrderlyLocks inner
    → CallKeeps HasOrderlyLocks host inner call
unfolding with_event with_job
keeps-HasOrderlyLocks host inner (repository_call r) h =
    λ valid. repository-frame HasOrderlyLocks inner (λ m. h) r
keeps-HasOrderlyLocks host inner (job_call j e) h =
    job-frame HasOrderlyLocks host (λ s e n p. p) (λ s j p. p) inner h j e
keeps-HasOrderlyLocks host inner (event_call e) h =
    event-frame HasOrderlyLocks host (λ s e n p. p) (λ s j p. p) inner h e
keeps-HasOrderlyLocks host inner (update_call j e) h =
    update-frame HasOrderlyLocks host (λ s e n p. p) (λ s j p. p) inner h j e
keeps-HasOrderlyLocks host inner (two_updates_call j e k f) h =
    two_updates-frame HasOrderlyLocks host (λ s e n p. p) (λ s j p. p) inner h j e k f
keeps-HasOrderlyLocks host inner (policy_call d) h = policy-frame HasOrderlyLocks inner (λ m. h) d
keeps-HasOrderlyLocks host inner (lock_call l) h = lock-HasOrderlyLocks l inner h
keeps-HasOrderlyLocks host inner (migration_call r) h =
    λ valid. migration-frame HasOrderlyLocks inner (λ m. h) r
keeps-HasOrderlyLocks host inner (acquire_call id leader safe timeout at) h =
    acquire-frame HasOrderlyLocks inner (λ m. h) id leader safe timeout at
keeps-HasOrderlyLocks host inner (find_lock_call now) h =
    find_lock-frame HasOrderlyLocks inner (λ m. h) now
keeps-HasOrderlyLocks host inner (release_call id leader at) h =
    release-frame HasOrderlyLocks inner (λ m. h) id leader at
keeps-HasOrderlyLocks host inner (invocation_call r) h =
    invocation-frame HasOrderlyLocks inner (λ m. h) r
keeps-HasOrderlyLocks host inner (result_call r) h = result-frame HasOrderlyLocks inner (λ m. h) r
keeps-HasOrderlyLocks host inner (audit_call r) h = audit-frame HasOrderlyLocks inner (λ m. h) r
keeps-HasOrderlyLocks host inner (result_and_audit_call j r e a f) h =
    result_and_audit-frame HasOrderlyLocks host (λ s e n p. p) (λ s j p. p) inner h j r e a f
      (λ checked. h) (λ s m p. p)

-- After any sequence of calls from the empty store, every lock decision is stored under its
-- own identifier with times that pass the check of a new lock, and two active locks on the same
-- scope of the same repository are one lock.
pub run-HasOrderlyLocks :
    (host : Host) (calls : List Call) → HasOrderlyLocks (run host default_inner calls)
unfolding get
run-HasOrderlyLocks host calls =
    run-keeps HasOrderlyLocks host (keeps-HasOrderlyLocks host) default_inner calls
      (record { timed = λ id lock g. absurd (cc); exclusive = λ id id' a b g. absurd (cc) })
