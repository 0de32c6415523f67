-- ===== src/Store/Mutate/Keeps.antt =====
-- What a transaction keeps: the state is the old one, or the draft's.
use atelia_secretary.Base.{◌≡◌, refl, ok, err, ◌>>=◌, ◌>>◌, Ensures}
use atelia_secretary.Store.State.{StoreError, StoreResult, InMemoryInner}
use atelia_secretary.Store.Publish.{prepare_job_event_publish}
use atelia_secretary.Store.Mutate.{Host, Draft, settle, mutate, mutate_with_published_events}

-- `P` holds of the state of a draft, if there is one.
abbrev pub DraftKeeps {ℓ} : {R : Type 0} → (InMemoryInner → Type ℓ) → StoreResult (Draft R) → Type ℓ
DraftKeeps P m = Ensures (λ d. P d.inner) m

module _ {ℓ} {R : Type 0} (P : InMemoryInner → Type ℓ) (host : Host) where
  committed :
      (inner : InMemoryInner) (draft : Draft R) (checks : StoreResult (Unit {0}))
      → P inner
      → P draft.inner
      → P (settle inner (checks >> ok draft)).1
  unfolding ◌>>=◌ ◌>>◌
  committed inner draft (ok _) p q = q
  committed inner draft (err e) p q = p

  published :
      (inner : InMemoryInner) (draft : Draft R) (publish checks : StoreResult (Unit {0}))
      → P inner
      → P draft.inner
      → P (settle inner (publish >> (checks >> ok draft))).1
  unfolding ◌>>=◌ ◌>>◌
  published inner draft (ok _) checks p q = committed inner draft checks p q
  published inner draft (err e) checks p q = p

  pub mutate-keeps :
      (mutator : InMemoryInner → StoreResult (Draft R)) (inner : InMemoryInner)
      → P inner
      → DraftKeeps P (mutator inner)
      → P (mutate host mutator inner).1
  unfolding ◌>>=◌ ◌>>◌ mutate
  mutate-keeps mutator inner p q = go (mutator inner) q
    where
      go :
          (m : StoreResult (Draft R))
          → DraftKeeps P m
          → P (settle inner (m >>= λ draft. host.persist draft.inner >> ok draft)).1
      go (ok draft) k = committed inner draft (host.persist draft.inner) p (k.holds draft refl)
      go (err e) k = p

  pub mutate_with_published_events-keeps :
      (mutator : InMemoryInner → StoreResult (Draft R)) (inner : InMemoryInner)
      → P inner
      → DraftKeeps P (mutator inner)
      → P (mutate_with_published_events host mutator inner).1
  unfolding ◌>>=◌ ◌>>◌ mutate_with_published_events
  mutate_with_published_events-keeps mutator inner p q = go (mutator inner) q
    where
      go :
          (m : StoreResult (Draft R))
          → DraftKeeps P m
          → P
              (settle inner (
                m >>= λ draft.
                prepare_job_event_publish draft.inner draft.events
                >> (host.persist draft.inner >> ok draft))).1
      go (ok draft) k =
          published inner draft (prepare_job_event_publish draft.inner draft.events)
            (host.persist draft.inner) p (k.holds draft refl)
      go (err e) k = p

module _ {R : Type 0} (inner : InMemoryInner) (draft : Draft R) where
  -- The end of a transaction whose draft was made.
  concluded : StoreResult (Unit {0}) → StoreResult (Unit {0}) → StoreResult R × InMemoryInner
  unfolding ◌>>◌
  concluded publish persist = settle inner (publish >> (persist >> ok draft))

  concluded-err :
      (publish persist : StoreResult (Unit {0})) (e : StoreError)
      → (concluded publish persist).0 ≡ err e
      → (concluded publish persist).1 ≡ inner
  unfolding concluded
  concluded-err (ok _) (ok _) e p = cc
  concluded-err (ok _) (err x) e p = refl
  concluded-err (err x) persist e p = refl

  concluded-ok :
      (publish persist : StoreResult (Unit {0})) (result : R)
      → (concluded publish persist).0 ≡ ok result
      → (persist ≡ ok tt)
        × (publish ≡ ok tt)
        × ((concluded publish persist).1 ≡ draft.inner)
        × (result ≡ draft.result)
  unfolding concluded
  concluded-ok (ok _) (ok _) result p = (refl, refl, refl, cc)
  concluded-ok (ok _) (err x) result p = absurd (cc)
  concluded-ok (err x) persist result p = absurd (cc)

module _ {R : Type 0} (host : Host) (inner : InMemoryInner) where
  unfoldable transacted : StoreResult (Draft R) → StoreResult R × InMemoryInner
  transacted m = settle inner (
      m >>= λ draft.
      prepare_job_event_publish draft.inner draft.events >> (host.persist draft.inner >> ok draft))

  transacted-err :
      (m : StoreResult (Draft R)) (e : StoreError)
      → (transacted m).0 ≡ err e
      → (transacted m).1 ≡ inner
  unfolding transacted ◌>>=◌ ◌>>◌ concluded
  transacted-err (ok draft) e p =
      concluded-err inner draft (prepare_job_event_publish draft.inner draft.events)
        (host.persist draft.inner) e p
  transacted-err (err x) e p = refl

  transacted-ok :
      (m : StoreResult (Draft R)) (result : R)
      → (transacted m).0 ≡ ok result
      → (draft : Draft R) × (m ≡ ok draft)
        × (host.persist draft.inner ≡ ok tt)
        × (prepare_job_event_publish draft.inner draft.events ≡ ok tt)
        × ((transacted m).1 ≡ draft.inner)
        × (result ≡ draft.result)
  unfolding transacted ◌>>=◌ ◌>>◌ concluded
  transacted-ok (ok draft) result p =
      let (persisted, published, state, same) =
        concluded-ok inner draft (prepare_job_event_publish draft.inner draft.events)
          (host.persist draft.inner) result p in
      (draft, refl, persisted, published, state, same)
  transacted-ok (err x) result p = absurd (cc)

-- A transaction that fails leaves the state as it was.
pub mutate_with_published_events-err :
    {R : Type 0} (host : Host) (mutator : InMemoryInner → StoreResult (Draft R))
    (inner : InMemoryInner) (e : StoreError)
    → (mutate_with_published_events host mutator inner).0 ≡ err e
    → (mutate_with_published_events host mutator inner).1 ≡ inner
unfolding mutate_with_published_events transacted
mutate_with_published_events-err host mutator inner = transacted-err host inner (mutator inner)

-- A transaction that succeeds leaves the state of a draft that was made from the state before,
-- persisted and found fit for publication.
pub mutate_with_published_events-ok :
    {R : Type 0} (host : Host) (mutator : InMemoryInner → StoreResult (Draft R))
    (inner : InMemoryInner) (result : R)
    → (mutate_with_published_events host mutator inner).0 ≡ ok result
    → (draft : Draft R) × (mutator inner ≡ ok draft)
      × (host.persist draft.inner ≡ ok tt)
      × (prepare_job_event_publish draft.inner draft.events ≡ ok tt)
      × ((mutate_with_published_events host mutator inner).1 ≡ draft.inner)
      × (result ≡ draft.result)
unfolding mutate_with_published_events transacted
mutate_with_published_events-ok host mutator inner = transacted-ok host inner (mutator inner)
