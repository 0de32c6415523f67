-- ===== src/Store/Loaded/Sound.antt =====
-- A ledger that passes the check of loaded snapshots, crates/atelia-core/src/store.rs.
use atelia_secretary.Base.{
  String, ℕ, suc, ◌+◌, Bool, ◌≡◌, ◌≤◌, refl, some, [], ◌∷◌, Assoc, arith, get, length, keys, ok,
  >>=-eq-ok, >>-eq-ok, reject_if-false, ok_or-some, string_eq, nat_eq, ne→path, eq→path, Bool-cases,
  inl, inr, ap, ◌∙◌, ◌==◌,
}
use atelia_secretary.Domain.Time.{u64_max}
use atelia_secretary.Domain.Ids.{JobEventId}
use atelia_secretary.Domain.Event.{JobEvent}
use atelia_secretary.Store.State.{InMemoryInner}
use atelia_secretary.Store.Ledger.Dense.{count_from}
use atelia_secretary.Store.Loaded.{
  LoadedSequence, loaded_step, loaded_loop, validate_loaded_job_event_sequence,
}

-- Each entry of an index leads to an event that is held and carries the entry's number.
abbrev pub IsIndexed : InMemoryInner → Assoc ℕ JobEventId → Type 0
IsIndexed inner entries =
    (n : ℕ) (id : JobEventId)
    → get entries n ≡ some id
    → (e : JobEvent) × (get inner.job_events_by_id id ≡ some e) × (e.sequence_number ≡ n)

-- The index is numbered from 1 to `next_event_sequence`, each entry leads to an event that carries
-- its number, and there are as many events as numbers.
pub record IsSoundLedger (inner : InMemoryInner) : Type 0 where
  pub ordered : keys inner.job_events_by_sequence ≡ count_from 1 inner.next_event_sequence
  pub indexed : IsIndexed inner inner.job_events_by_sequence
  pub complete : length inner.job_events_by_id ≡ inner.next_event_sequence

module _ (parses_uuid : String → Bool) (inner : InMemoryInner) where
  record Stepped (s after : LoadedSequence) (n : ℕ) (id : JobEventId) : Type 0 where
    expected : n ≡ s.expected_sequence
    counted : s.expected_sequence + 1 ≤ u64_max → after.expected_sequence ≡ n + 1
    seen : length after.seen_event_ids ≡ suc (length s.seen_event_ids)
    found : (e : JobEvent) × (get inner.job_events_by_id id ≡ some e) × (e.sequence_number ≡ n)

  loaded_step-Stepped :
      (s after : LoadedSequence) (n : ℕ) (id : JobEventId)
      → loaded_step parses_uuid inner s n id ≡ ok after
      → Stepped s after n id
  unfolding loaded_step
  loaded_step-Stepped s after n id h =
      let (at_number, h1) = >>-eq-ok _ _ h in
      let (unseen, h2) = >>-eq-ok _ _ h1 in
      let (e, held, h3) = >>=-eq-ok _ _ h2 in
      let (same, h4) = >>-eq-ok _ _ h3 in
      let (valid, h5) = >>-eq-ok _ _ h4 in
      let number = ne→path n s.expected_sequence (reject_if-false _ _ at_number) in
      record {
        expected = number;
        counted = λ room. ground (arith, h5, number, room);
        seen = ground (arith, h5);
        found = (e, ok_or-some _ _ e held, ne→path e.sequence_number n (reject_if-false _ _ same));
      }

  record Looped (s after : LoadedSequence) (entries : Assoc ℕ JobEventId) : Type 0 where
    ordered : keys entries ≡ count_from s.expected_sequence (length entries)
    counted : after.expected_sequence ≡ s.expected_sequence + length entries
    seen : length after.seen_event_ids ≡ length s.seen_event_ids + length entries
    indexed : IsIndexed inner entries

  IsIndexed-cons :
      (entries : Assoc ℕ JobEventId) (k : ℕ) (id : JobEventId)
      → (e : JobEvent) × (get inner.job_events_by_id id ≡ some e) × (e.sequence_number ≡ k)
      → IsIndexed inner entries
      → IsIndexed inner ((k, id) ∷ entries)
  unfolding get
  IsIndexed-cons entries k id found rest n i h = elim (Bool-cases (k == n)) [
    | inl same ↦
        let here : id ≡ i = cc (rw same at h) in
        (found.0, rw (← here) found.1, found.2 ∙ eq→path k n same)
    | inr other ↦ rest n i (rw other at h)
  ]

  loaded_loop-Looped :
      (s after : LoadedSequence) (entries : Assoc ℕ JobEventId)
      → s.expected_sequence + length entries ≤ u64_max
      → loaded_loop parses_uuid inner s entries ≡ ok after
      → Looped s after entries
  unfolding loaded_loop get
  loaded_loop-Looped s after [] room h =
      let same : s ≡ after = cc h in
      record {
        ordered = refl;
        counted = omega (arith, ap (λ (t : LoadedSequence). t.expected_sequence) same);
        seen = omega (arith, ap (λ (t : LoadedSequence). length t.seen_event_ids) same);
        indexed = λ n id e. absurd (cc);
      }
  loaded_loop-Looped s after ((n, id) ∷ entries) room h =
      let (next, step, h1) = >>=-eq-ok _ _ h in
      let stepped = loaded_step-Stepped s next n id step in
      let counted = stepped.counted (omega arith) in
      let rest =
        loaded_loop-Looped next after entries (omega (arith, counted, stepped.expected)) h1 in
      let on : next.expected_sequence ≡ suc s.expected_sequence =
        omega (arith, counted, stepped.expected) in
      let tail : keys entries ≡ count_from (suc s.expected_sequence) (length entries) =
        rw on at rest.ordered in
      record {
        ordered = rw (stepped.expected) (ap (λ ns. s.expected_sequence ∷ ns) tail);
        counted = omega (arith, rest.counted, counted, stepped.expected);
        seen = omega (arith, rest.seen, stepped.seen);
        indexed = IsIndexed-cons entries n id stepped.found rest.indexed;
      }

-- If the index of a loaded snapshot is shorter than the range of a u64, the check accepts it only
-- when it is numbered without gaps from 1 to `next_event_sequence`, each of its entries leads to an
-- event that is held and carries the entry's number, and as many events are held.
pub validate_loaded_job_event_sequence-IsSoundLedger :
    (parses_uuid : String → Bool) (inner : InMemoryInner)
    → 1 + length inner.job_events_by_sequence ≤ u64_max
    → validate_loaded_job_event_sequence parses_uuid inner ≡ ok tt
    → IsSoundLedger inner
unfolding validate_loaded_job_event_sequence
validate_loaded_job_event_sequence-IsSoundLedger parses_uuid inner room h =
    let (s, loop, h1) = >>=-eq-ok _ _ h in
    let (total, h2) = >>-eq-ok _ _ h1 in
    let looped = loaded_loop-Looped parses_uuid inner _ s inner.job_events_by_sequence room loop in
    let last = ne→path _ inner.next_event_sequence (reject_if-false _ _ total) in
    let same = ne→path _ (length inner.job_events_by_id) (reject_if-false _ _ h2) in
    let all : length inner.job_events_by_sequence ≡ inner.next_event_sequence =
      omega (arith, looped.counted, last) in
    record {
      ordered = rw (← all) looped.ordered;
      indexed = looped.indexed;
      complete = omega (arith, looped.seen, same, all);
    }
