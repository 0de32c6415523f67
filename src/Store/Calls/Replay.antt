-- ===== src/Store/Calls/Replay.antt =====
-- What a client that replays the job events is given, crates/atelia-core/src/store.rs.
use atelia_secretary.Store.Calls.Ledger.{run-HasDenseLedger}
use atelia_secretary.Domain.Time.{u64_max}
use atelia_secretary.Store.Calls.{run, Call}
use atelia_secretary.Store.Query.{
  at_most, event_cursor_sequence, EventCursor, replay_job_events, after, collect_events,
}
use atelia_secretary.Domain.Ids.{JobEventId}
use atelia_secretary.Domain.Event.{JobEvent}
use atelia_secretary.Store.State.{default_inner, InMemoryInner}
use atelia_secretary.Store.Mutate.{Host}
use atelia_secretary.Base.{
  true, false, ap, ltb, Bool, if◌then◌else◌, ◌≡◌, refl, ℕ, ◌+◌, ◌≤◌, zero, suc, List, [], ◌∷◌,
  Option, none, some, Assoc, get, keys, take, select, arith, nat_eq, string_eq, ok, leb, ◌>>=◌, ◌∙◌,
}
use atelia_secretary.Store.Ledger.Dense.{HasDenseLedger, count_from}

abbrev pub numbers : List JobEvent → List ℕ
numbers [] = []
numbers (e ∷ es) = e.sequence_number ∷ numbers es

module _ (by_id : Assoc JobEventId JobEvent) where
  -- Each entry of an index leads to an event with its number.
  abbrev Resolves : Assoc ℕ JobEventId → Type 0
  Resolves [] = Unit
  Resolves ((n, id) ∷ m) =
      ((e : JobEvent) × (get by_id id ≡ some e) × (e.sequence_number ≡ n)) × Resolves m

  select-Resolves :
      (p : ℕ → Bool) (m : Assoc ℕ JobEventId)
      → Resolves m
      → Resolves (select (λ entry. p entry.0) m)
  select-Resolves p [] r = tt
  select-Resolves p ((n, id) ∷ m) r = go (p n) (select-Resolves p m r.1)
    where
      go :
          (b : Bool)
          → Resolves (select (λ entry. p entry.0) m)
          → Resolves
              (let rest = select (λ entry. p entry.0) m in if b then (n, id) ∷ rest else rest)
      go true rest = (r.0, rest)
      go false rest = rest

  take-Resolves : (k : ℕ) (m : Assoc ℕ JobEventId) → Resolves m → Resolves (take k m)
  take-Resolves zero m r = tt
  take-Resolves (suc k) [] r = tt
  take-Resolves (suc k) ((n, id) ∷ m) r = (r.0, take-Resolves k m r.1)

  collect_events-numbers :
      (m : Assoc ℕ JobEventId)
      → Resolves m
      → (es : List JobEvent) × (collect_events by_id m ≡ ok es) × (numbers es ≡ keys m)
  unfolding collect_events ◌>>=◌
  collect_events-numbers [] r = ([], refl, refl)
  collect_events-numbers ((n, id) ∷ m) ((e, found, same), rest) =
      let (es, collected, all) = collect_events-numbers m rest in
      (e ∷ es, rw (found, collected) refl, ground arith)

  keys-above :
      (m : Assoc ℕ JobEventId) (s n k : ℕ) (id : JobEventId)
      → keys m ≡ count_from s n
      → get m k ≡ some id
      → s ≤ k
  unfolding get
  keys-above [] s n k id e g = absurd (cc)
  keys-above ((j, w) ∷ m) s zero k id e g = absurd (cc)
  keys-above ((j, w) ∷ m) s (suc n) k id e g = ground (arith, keys-above m (suc s) n k id)

  index-Resolves :
      (m : Assoc ℕ JobEventId) (s n : ℕ)
      → keys m ≡ count_from s n
      → ((k : ℕ) (id : JobEventId)
          → get m k ≡ some id
          → (e : JobEvent) × (get by_id id ≡ some e) × (e.sequence_number ≡ k))
      → Resolves m
  unfolding get
  index-Resolves [] s n e h = tt
  index-Resolves ((j, w) ∷ m) s zero e h = absurd (cc)
  index-Resolves ((j, w) ∷ m) s (suc n) e h = (
    h j w (ground arith),
    index-Resolves m (suc s) n (ground arith)
        λ k id g. h k id (ground (arith, keys-above m (suc s) n k id)),
  )

keys-select :
    (p : ℕ → Bool) (m : Assoc ℕ JobEventId)
    → keys (select (λ entry. p entry.0) m) ≡ select p (keys m)
keys-select p [] = refl
keys-select p ((n, id) ∷ m) = ground (arith, keys-select p m)

keys-take : (k : ℕ) (m : Assoc ℕ JobEventId) → keys (take k m) ≡ take k (keys m)
keys-take zero m = refl
keys-take (suc k) [] = refl
keys-take (suc k) ((n, id) ∷ m) = ground (arith, keys-take k m)

dense-Resolves :
    (inner : InMemoryInner)
    → HasDenseLedger inner
    → Resolves inner.job_events_by_id inner.job_events_by_sequence
dense-Resolves inner h =
    index-Resolves inner.job_events_by_id inner.job_events_by_sequence 1 inner.next_event_sequence
      h.ordered
      λ k id g.
        let (positive, bounded) = h.in_range k id g in
        let (e, at, found, same) = h.at_sequence k positive bounded in (e, ground arith, same)

-- The numbers after `sequence` of a ledger with `next` events.
unfoldable pub numbers_after : ℕ → ℕ → List ℕ
numbers_after next sequence =
    if ltb sequence u64_max then select (λ n. leb (sequence + 1) n) (count_from 1 next) else []

module _ (inner : InMemoryInner) (h : HasDenseLedger inner) where
  after-Resolves : (sequence : ℕ) → Resolves inner.job_events_by_id (after inner sequence)
  unfolding after
  after-Resolves sequence = go (ltb sequence u64_max)
    where
      go :
          (b : Bool)
          → Resolves inner.job_events_by_id (
              if b
              then select (λ entry. leb (sequence + 1) entry.0) inner.job_events_by_sequence
              else [])
      go true =
          select-Resolves inner.job_events_by_id (leb (sequence + 1)) _ (dense-Resolves inner h)
      go false = tt

  keys-after :
      (sequence : ℕ)
      → keys (after inner sequence) ≡ numbers_after inner.next_event_sequence sequence
  unfolding after numbers_after
  keys-after sequence =
      ground (arith, keys-select (leb (sequence + 1)) inner.job_events_by_sequence, h.ordered)

  replay-numbers :
      (cursor : EventCursor) (limit : Option ℕ) (sequence : ℕ)
      → event_cursor_sequence inner cursor ≡ ok sequence
      → (es : List JobEvent) × (replay_job_events inner cursor limit ≡ ok es)
        × (numbers es ≡ at_most limit (numbers_after inner.next_event_sequence sequence))
  unfolding replay_job_events ◌>>=◌
  replay-numbers cursor none sequence e =
      let (es, collected, all) =
        collect_events-numbers inner.job_events_by_id (after inner sequence)
          (after-Resolves sequence) in
      (es, rw e collected, all ∙ keys-after sequence)
  replay-numbers cursor (some k) sequence e =
      let (es, collected, all) =
        collect_events-numbers inner.job_events_by_id (take k (after inner sequence))
          (take-Resolves inner.job_events_by_id k _ (after-Resolves sequence)) in
      (
        es,
        rw e collected,
        all ∙ (keys-take k (after inner sequence) ∙ ap (take k) (keys-after sequence)),
      )

-- In the store after any sequence of calls, a replay from a cursor that resolves succeeds,
-- and gives the events with the numbers above the cursor up to the last one, each once and in
-- rising order, cut off at the limit.
pub run-replay_job_events :
    (host : Host) (calls : List Call) (cursor : EventCursor) (limit : Option ℕ) (sequence : ℕ)
    → event_cursor_sequence (run host default_inner calls) cursor ≡ ok sequence
    → (es : List JobEvent) × (replay_job_events (run host default_inner calls) cursor limit ≡ ok es)
      × (numbers es
          ≡ at_most limit
              (numbers_after (run host default_inner calls).next_event_sequence sequence))
run-replay_job_events host calls =
    replay-numbers (run host default_inner calls) (run-HasDenseLedger host calls)
