-- ===== src/Store/Query/Paging.antt =====
-- Pages are the records between two offsets, crates/atelia-core/src/store.rs.
use atelia_secretary.Domain.Event.{JobEvent}
use atelia_secretary.Domain.Ids.{JobEventId}
use atelia_secretary.Store.State.{StoreError, StoreResult, InMemoryInner}
use atelia_secretary.Base.{
  ◌==◌, Bool, true, false, ok, length-take, none, option_eq, string_eq, Bool, some, if◌then◌else◌,
  nat_eq, >>=-eq-ok, get, ok_or, ok, ◌>>=◌, ◌<◌, Assoc, zero, suc, length-append, ◌≡◌, refl, ℕ, ◌+◌,
  List, [], ◌∷◌, ◌++◌, length, take, drop, ltb, arith,
}
use atelia_secretary.Store.Query.{
  after, event_cursor_sequence, collect_paginated_filtered_job_events, event_matches_query,
  conflict, event_loop, Decimal, EventQuery, page_records, page_loop,
}

module _ {R : Type 0} where
  -- What is left of the page is filled from the records.
  append_nil : (xs : List R) → xs ++ [] ≡ xs
  append_nil [] = refl
  append_nil (x ∷ xs) = ground (arith, append_nil xs)

  append_assoc : (xs ys zs : List R) → (xs ++ ys) ++ zs ≡ xs ++ (ys ++ zs)
  append_assoc [] ys zs = refl
  append_assoc (x ∷ xs) ys zs = ground (arith, append_assoc xs ys zs)

  page_loop-filling :
      (start size : ℕ) (retained records : List R) (room : ℕ)
      → length retained + room ≡ size
      → page_loop start size start retained records
        ≡ (retained ++ take room records, ltb room (length records))
  unfolding page_loop
  page_loop-filling start size retained [] zero e = ground (arith, append_nil retained)
  page_loop-filling start size retained [] (suc room) e = ground (arith, append_nil retained)
  page_loop-filling start size retained (r ∷ rs) zero e = ground (arith, append_nil retained)
  page_loop-filling start size retained (r ∷ rs) (suc room) e = ground (
    arith,
    append_assoc retained (r ∷ []) (take room rs),
    length-append retained (r ∷ []),
    page_loop-filling start size (retained ++ (r ∷ [])) rs room,
  )

  page_loop-skipping :
      (start size skipped : ℕ) (retained records : List R) (left : ℕ)
      → skipped + left ≡ start
      → page_loop start size skipped retained records
        ≡ page_loop start size start retained (drop left records)
  unfolding page_loop
  page_loop-skipping start size skipped retained [] zero e = refl
  page_loop-skipping start size skipped retained [] (suc left) e = refl
  page_loop-skipping start size skipped retained (r ∷ rs) zero e = ground (arith)
  page_loop-skipping start size skipped retained (r ∷ rs) (suc left) e =
      ground (arith, page_loop-skipping start size (skipped + 1) retained rs left)

  -- A page of positive size holds the records from its offset on, as many as fit, and has a next
  -- token exactly if there are more, which is then the offset of the first of them.
  pub page_records-take-drop :
      (decimal : Decimal) (records : List R) (start size : ℕ)
      → 0 < size
      → page_records decimal records start size ≡ (
        take size (drop start records),
        if ltb size (length (drop start records))
            then some (decimal.print (start + size))
            else none,
      )
  unfolding page_records
  page_records-take-drop decimal records start size positive = ground (
    arith,
    page_loop-skipping start size 0 [] records start,
    page_loop-filling start size [] (drop start records) size,
    length-take size (drop start records),
  )

-- The entries of an index that a query asks for.
unfoldable pub matching_events :
    InMemoryInner → EventQuery → Assoc ℕ JobEventId → StoreResult (List JobEvent)
matching_events inner query [] = ok []
matching_events inner query ((sequence, id) ∷ entries) =
    ok_or (get inner.job_events_by_id id)
      (conflict "job_events" "sequence index references missing id {}")
    >>= λ event. event_matches_query inner event query >>= λ matches.
        matching_events inner query entries >>= λ events.
        ok (if matches then event ∷ events else events)

module _ (inner : InMemoryInner) (query : EventQuery) (start size : ℕ) where
  matching_events-cons :
      (sequence : ℕ) (id : JobEventId) (entries : Assoc ℕ JobEventId) (events : List JobEvent)
      → matching_events inner query ((sequence, id) ∷ entries) ≡ ok events
      → (event : JobEvent) × (matches : Bool) × (rest : List JobEvent) × (ok_or {E = StoreError}
            (get inner.job_events_by_id id)
            (conflict "job_events" "sequence index references missing id {}")
          ≡ ok event)
        × (event_matches_query inner event query ≡ ok matches)
        × (matching_events inner query entries ≡ ok rest)
        × ((if matches then event ∷ rest else rest) ≡ events)
  unfolding matching_events
  matching_events-cons sequence id entries events e =
      let (event, found, e1) = >>=-eq-ok _ _ e in
      let (matches, tested, e2) = >>=-eq-ok _ _ e1 in
      let (rest, matched, e3) = >>=-eq-ok _ _ e2 in
      (event, matches, rest, found, tested, matched, cc e3)

  -- Where no entry fails, the loop over the index is the loop over the matching events.
  event_loop-page_loop :
      (entries : Assoc ℕ JobEventId) (skipped : ℕ) (retained events : List JobEvent)
      → matching_events inner query entries ≡ ok events
      → event_loop inner query start size skipped retained entries
        ≡ ok (page_loop start size skipped retained events)
  unfolding event_loop matching_events page_loop ◌>>=◌
  event_loop-page_loop [] skipped retained events e = ground arith
  event_loop-page_loop ((sequence, id) ∷ entries) skipped retained events e =
      let (event, matches, rest, found, tested, matched, chosen) =
        matching_events-cons sequence id entries events e in
      rw (found, tested, ← chosen)
        (go event matches rest λ k kept. event_loop-page_loop entries k kept rest matched)
    where
      go :
          (event : JobEvent) (matches : Bool) (rest : List JobEvent)
          → ((k : ℕ) (kept : List JobEvent)
              → event_loop inner query start size k kept entries
                ≡ ok (page_loop start size k kept rest))
          → (elim matches [
            | false ↦ event_loop inner query start size skipped retained entries
            | true ↦ elim (ltb skipped start) [
              | true ↦ event_loop inner query start size (skipped + 1) retained entries
              | false ↦ elim (length retained == size) [
                | true ↦ ok (retained, true)
                | false ↦
                    event_loop inner query start size skipped (retained ++ (event ∷ [])) entries
              ]
            ]
          ])
            ≡ ok (page_loop start size skipped retained (if matches then event ∷ rest else rest))
      go event matches rest recur = ground (
        arith,
        recur skipped retained,
        recur (skipped + 1) retained,
        recur skipped (retained ++ (event ∷ [])),
      )

-- The page of an event query is the page of the matching events after the cursor, where none of
-- the entries that it might read fails.
pub collect_paginated-page_records :
    (decimal : Decimal) (inner : InMemoryInner) (query : EventQuery) (start size sequence : ℕ)
    (events : List JobEvent)
    → event_cursor_sequence inner query.cursor ≡ ok sequence
    → matching_events inner query (after inner sequence) ≡ ok events
    → collect_paginated_filtered_job_events decimal inner query start size
      ≡ ok (page_records decimal events start size)
unfolding collect_paginated_filtered_job_events page_records ◌>>=◌
collect_paginated-page_records decimal inner query start size sequence events cursor matching =
    ground (
      arith,
      event_loop-page_loop inner query start size (after inner sequence) 0 [] events matching,
    )
