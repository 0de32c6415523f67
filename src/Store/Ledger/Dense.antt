-- ===== src/Store/Ledger/Dense.antt =====
-- The sequence of job events has no gap and no duplicate, crates/atelia-core/src/store.rs.
use atelia_secretary.Base.{
  [], ◌∷◌, zero, suc, [], suc, keys, List, is_some-false, Ensures-pure, >>=-eq-ok, Ensures-ok, ok,
  String, Bool, reject_if-false, >>-eq-ok, ok_or, ok_or-some, Ensures, Ensures-bind, ◌∙◌, ℕ, ◌+◌,
  ◌≤◌, ◌<◌, ◌≡◌, none, some, Assoc, get, insert, insert_ordered, get-insert, get-insert_ordered,
  arith, string_eq, nat_eq, string_ord, nat_ord, Bool-cases, inl, inr, ◌==◌,
}
use atelia_secretary.Domain.Ids.{JobEventId}
use atelia_secretary.Domain.Event.{JobEvent}
use atelia_secretary.Store.State.{StoreError, sequence_overflow, InMemoryInner}
use atelia_secretary.Store.Checks.{checked_add}
use atelia_secretary.Store.Subjects.{Pending}
use atelia_secretary.Store.EventRefs.{validate_new_job_event_with_pending_records}
use atelia_secretary.Store.JobUpdate.{validate_sibling_event_ids_are_unique}
use atelia_secretary.Store.Ledger.{append_event_locked, with_event}

-- `n` numbers from `s` on.
abbrev pub count_from : ℕ → ℕ → List ℕ
count_from s zero = []
count_from s (suc n) = s ∷ count_from (suc s) n

-- The index in rising order. The numbers 1 to `next` index one event each, under its own identifier and number, and every
-- event that is held has a place in the index.
pub record IsDense (by_id : Assoc JobEventId JobEvent) (by_sequence : Assoc ℕ JobEventId) (next : ℕ)
    : Type 0 where
  pub ordered : keys by_sequence ≡ count_from 1 next
  pub at_sequence :
      (n : ℕ)
      → 0 < n
      → n ≤ next
      → (e : JobEvent) × (get by_sequence n ≡ some e.id)
        × (get by_id e.id ≡ some e)
        × (e.sequence_number ≡ n)
  pub in_range : (n : ℕ) (id : JobEventId) → get by_sequence n ≡ some id → (0 < n) × (n ≤ next)
  pub held :
      (id : JobEventId) (e : JobEvent)
      → get by_id id ≡ some e
      → (e.id ≡ id) × (get by_sequence e.sequence_number ≡ some id)

abbrev pub HasDenseLedger : InMemoryInner → Type 0
HasDenseLedger inner =
    IsDense inner.job_events_by_id inner.job_events_by_sequence inner.next_event_sequence

-- A number above all those of an index goes to its end.
keys-insert_ordered :
    (m : Assoc ℕ JobEventId) (s n k : ℕ) (id : JobEventId)
    → keys m ≡ count_from s n
    → s + n ≡ k
    → keys (insert_ordered m k id) ≡ count_from s (suc n)
unfolding insert_ordered
keys-insert_ordered [] s zero k id e last = ground arith
keys-insert_ordered [] s (suc n) k id e last = absurd (cc)
keys-insert_ordered ((j, w) ∷ m) s zero k id e last = absurd (cc)
keys-insert_ordered ((j, w) ∷ m) s (suc n) k id e last =
    ground (arith, keys-insert_ordered m (suc s) n k id)

module _ (inner : InMemoryInner) (event : JobEvent)
    (fresh : get inner.job_events_by_id event.id ≡ none) (h : HasDenseLedger inner) where
  abbrev numbered : JobEvent
  numbered = record event { sequence_number = inner.next_event_sequence + 1 }

  old_sequence :
      (n : ℕ)
      → n ≤ inner.next_event_sequence
      → get (insert_ordered inner.job_events_by_sequence (inner.next_event_sequence + 1) event.id) n
        ≡ get inner.job_events_by_sequence n
  old_sequence n le = ground (
    arith,
    get-insert_ordered inner.job_events_by_sequence (inner.next_event_sequence + 1) n event.id,
  )

  old_event :
      (id : JobEventId) (e : JobEvent)
      → get inner.job_events_by_id id ≡ some e
      → get (insert inner.job_events_by_id event.id numbered) id ≡ some e
  old_event id e p = ground (arith, get-insert inner.job_events_by_id event.id id numbered)

  at_sequence_with :
      (n : ℕ)
      → 0 < n
      → n ≤ inner.next_event_sequence + 1
      → (e : JobEvent) × (get
            (insert_ordered inner.job_events_by_sequence (inner.next_event_sequence + 1) event.id)
            n
          ≡ some e.id)
        × (get (insert inner.job_events_by_id event.id numbered) e.id ≡ some e)
        × (e.sequence_number ≡ n)
  at_sequence_with n pos le = elim (Bool-cases (n == inner.next_event_sequence + 1)) [
    | inl last ↦ (
      numbered,
      ground (
        arith,
        get-insert_ordered inner.job_events_by_sequence (inner.next_event_sequence + 1) n event.id,
      ),
      ground (arith, get-insert inner.job_events_by_id event.id event.id numbered),
      ground arith,
    )
    | inr before ↦
        let le' : n ≤ inner.next_event_sequence = ground arith in
        let (e, s, i, q) = h.at_sequence n pos le' in
        (e, old_sequence n le' ∙ s, old_event e.id e i, q)
  ]

  in_range_with :
      (n : ℕ) (id : JobEventId)
      → get (insert_ordered inner.job_events_by_sequence (inner.next_event_sequence + 1) event.id) n
        ≡ some id
      → (0 < n) × (n ≤ inner.next_event_sequence + 1)
  in_range_with n id p = ground (
    arith,
    get-insert_ordered inner.job_events_by_sequence (inner.next_event_sequence + 1) n event.id,
    h.in_range n id,
  )

  held_with :
      (id : JobEventId) (e : JobEvent)
      → get (insert inner.job_events_by_id event.id numbered) id ≡ some e
      → (e.id ≡ id)
        × (get
              (insert_ordered inner.job_events_by_sequence (inner.next_event_sequence + 1) event.id)
              e.sequence_number
            ≡ some id)
  held_with id e p = ground (
    arith,
    get-insert inner.job_events_by_id event.id id numbered,
    get-insert_ordered inner.job_events_by_sequence (inner.next_event_sequence + 1)
        e.sequence_number event.id,
    h.held id e,
    h.in_range e.sequence_number id,
  )

  ordered_with :
      keys (insert_ordered inner.job_events_by_sequence (inner.next_event_sequence + 1) event.id)
      ≡ count_from 1 (inner.next_event_sequence + 1)
  ordered_with =
      let next : suc inner.next_event_sequence ≡ inner.next_event_sequence + 1 = omega arith in
      let e =
        keys-insert_ordered inner.job_events_by_sequence 1 inner.next_event_sequence
          (inner.next_event_sequence + 1) event.id h.ordered (omega arith) in
      ground (arith, e, next)

  pub with_event-HasDenseLedger :
      HasDenseLedger (with_event inner event (inner.next_event_sequence + 1))
  unfolding with_event
  with_event-HasDenseLedger = record {
    ordered = ordered_with;
    at_sequence = at_sequence_with;
    in_range = in_range_with;
    held = held_with;
  }

-- A validated event is new.
pub validate_new_job_event-fresh :
    (parses_uuid : String → Bool) (inner : InMemoryInner) (event : JobEvent) (pending : Pending)
    → validate_new_job_event_with_pending_records parses_uuid inner event pending ≡ ok tt
    → get inner.job_events_by_id event.id ≡ none
unfolding validate_new_job_event_with_pending_records
validate_new_job_event-fresh parses_uuid inner event pending e =
    is_some-false _ (reject_if-false _ _ (>>-eq-ok _ _ e).0)

-- The next number is the successor, where it is representable.
checked_add-some : (a b n : ℕ) → checked_add a b ≡ some n → n ≡ a + b
checked_add-some a b n e = ground arith

pub next_sequence-suc :
    (inner : InMemoryInner) (n : ℕ)
    → ok_or {E = StoreError} (checked_add inner.next_event_sequence 1) sequence_overflow ≡ ok n
    → n ≡ inner.next_event_sequence + 1
next_sequence-suc inner n e = checked_add-some _ 1 n (ok_or-some _ _ n e)

module _ (inner : InMemoryInner) (event : JobEvent) (h : HasDenseLedger inner) where
  pub with_event-HasDenseLedger_next :
      (n : ℕ)
      → get inner.job_events_by_id event.id ≡ none
      → ok_or {E = StoreError} (checked_add inner.next_event_sequence 1) sequence_overflow ≡ ok n
      → HasDenseLedger (with_event inner event n)
  with_event-HasDenseLedger_next n fresh e =
      rw (next_sequence-suc inner n e) (with_event-HasDenseLedger inner event fresh h)

  pub append_event_locked-HasDenseLedger :
      get inner.job_events_by_id event.id ≡ none
      → Ensures (λ r. HasDenseLedger r.0) (append_event_locked inner event)
  unfolding append_event_locked
  append_event_locked-HasDenseLedger fresh =
      Ensures-bind (λ (r : InMemoryInner × JobEvent). HasDenseLedger r.0) _ _
        λ n e. Ensures-pure _ _ (with_event-HasDenseLedger_next n fresh e)

pub append_event_locked-with_event :
    (inner : InMemoryInner) (event : JobEvent) (r : InMemoryInner × JobEvent)
    → append_event_locked inner event ≡ ok r
    → r.0 ≡ with_event inner event (inner.next_event_sequence + 1)
unfolding append_event_locked
append_event_locked-with_event inner event r e =
    let (n, p, q) = >>=-eq-ok _ _ e in let s = next_sequence-suc inner n p in cc

-- Two events in a row.
module _ (inner : InMemoryInner) (event other : JobEvent) (h : HasDenseLedger inner)
    (fresh : get inner.job_events_by_id event.id ≡ none)
    (other_fresh : get inner.job_events_by_id other.id ≡ none)
    (distinct : validate_sibling_event_ids_are_unique event other ≡ ok tt) where
  with_event-fresh : (n : ℕ) → get (with_event inner event n).job_events_by_id other.id ≡ none
  unfolding with_event validate_sibling_event_ids_are_unique
  with_event-fresh n = ground (
    arith,
    get-insert inner.job_events_by_id event.id other.id (record event { sequence_number = n }),
  )

  pub first_append-HasDenseLedger :
      (r : InMemoryInner × JobEvent)
      → append_event_locked inner event ≡ ok r
      → HasDenseLedger r.0 × (get r.0.job_events_by_id other.id ≡ none)
  first_append-HasDenseLedger r e = (
    Ensures-ok (λ s. HasDenseLedger s.0) _ r
        (append_event_locked-HasDenseLedger inner event h fresh) e,
    rw (append_event_locked-with_event inner event r e) (with_event-fresh _),
  )
