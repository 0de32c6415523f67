-- ===== src/Domain/Lock/Reclaim.antt =====
-- What `reclaim` permits, crates/atelia-core/src/domain.rs.
use atelia_secretary.Base.{
  ◌↔◌, is_ok, ◌>>=◌, ◌>>◌, ◌≤◌, ◌≡◌, Bool, true, false, ◌⊎◌, some, ok, arith,
}
use atelia_secretary.Domain.Time.{LedgerTimestamp}
use atelia_secretary.Domain.Lock.{LockDecision, LockOwner, held, expired, reclaimed, reclaim}

-- A reclaim that changes the lock is the owner's, of a lock still open, and no earlier than its
-- deadline and last update; the lock it leaves is reclaimed at that moment.
pub reclaim-true :
    (lock after : LockDecision) (owner : LockOwner) (at : LedgerTimestamp)
    → reclaim lock owner at ≡ ok (after, true)
    → (owner ≡ lock.owner)
      × ((lock.status ≡ held) ⊎ (lock.status ≡ expired))
      × (lock.expires_at ≤ at)
      × (lock.updated_at ≤ at)
      × (after.status ≡ reclaimed)
      × (after.reclaimed_at ≡ some at)
      × (after.updated_at ≡ at)
unfolding ◌>>=◌ ◌>>◌ reclaim
reclaim-true lock after owner at e = ground arith

-- Reclaiming is idempotent: whoever reclaimed the lock may ask again, at any time, and the lock
-- stays as the first call left it.
pub reclaim_twice :
    (lock after : LockDecision) (owner : LockOwner) (at later : LedgerTimestamp) (done : Bool)
    → reclaim lock owner at ≡ ok (after, done)
    → reclaim after owner later ≡ ok (after, false)
unfolding ◌>>=◌ ◌>>◌ reclaim
reclaim_twice lock after owner at later done e = ground arith

-- A reclaim succeeds exactly when the owner of the lock asks, and the lock was reclaimed before, or
-- is still open and neither its deadline nor its last update is later.
pub reclaim-is_ok_iff :
    (lock : LockDecision) (owner : LockOwner) (at : LedgerTimestamp)
    → (is_ok (reclaim lock owner at) ≡ true) ↔ (
        (owner ≡ lock.owner)
        × ((lock.status ≡ reclaimed)
            ⊎ (((lock.status ≡ held) ⊎ (lock.status ≡ expired))
                × (lock.expires_at ≤ at)
                × (lock.updated_at ≤ at))))
unfolding ◌>>=◌ ◌>>◌ reclaim
reclaim-is_ok_iff lock owner at = (λ succeeds. ground arith, λ permitted. ground arith)
