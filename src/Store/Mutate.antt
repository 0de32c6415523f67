-- ===== src/Store/Mutate.antt =====
-- Transactions: a mutator works on a draft of the state, and the draft replaces the state only
-- when every step succeeds, crates/atelia-core/src/store.rs. What is not under the repository, or
-- is the file system, is the record `Host`: whether a text is a UUID, and whether the snapshot of
-- a draft is written (for a store without a snapshot file, `persist` always succeeds).
pub mod Keeps
use atelia_secretary.Base.{String, Bool, List, ok, err, ◌>>=◌, ◌>>◌}
use atelia_secretary.Domain.Event.{JobEvent}
use atelia_secretary.Store.State.{StoreResult, InMemoryInner}
use atelia_secretary.Store.Publish.{prepare_job_event_publish}

pub record Host : Type 0 where
  pub parses_uuid : String → Bool
  pub persist : InMemoryInner → StoreResult (Unit {0})

-- The draft that a mutator returns, with its result and the events to publish.
pub record Draft (R : Type 0) : Type 0 where
  pub inner : InMemoryInner
  pub result : R
  pub events : List JobEvent

module _ {R : Type 0} where
  -- An error leaves the state as it was.
  abbrev pub settle : InMemoryInner → StoreResult (Draft R) → StoreResult R × InMemoryInner
  settle inner (ok draft) = (ok draft.result, draft.inner)
  settle inner (err e) = (err e, inner)

  unfoldable pub mutate :
      Host → (InMemoryInner → StoreResult (Draft R)) → InMemoryInner → StoreResult R × InMemoryInner
  mutate host mutator inner =
      settle inner (do draft ← mutator inner; host.persist draft.inner; ok draft)

  unfoldable pub mutate_with_published_events :
      Host → (InMemoryInner → StoreResult (Draft R)) → InMemoryInner → StoreResult R × InMemoryInner
  mutate_with_published_events host mutator inner = settle inner (do
    draft ← mutator inner
    prepare_job_event_publish draft.inner draft.events
    host.persist draft.inner
    ok draft)
