-- ===== src/Store/Query.antt =====
-- Queries over jobs and events, crates/atelia-core/src/store.rs. A `Vec` that is read by position
-- is a list; numbers of type usize are native numbers, since they count records that are held.
-- The decimal notation of Rust's standard library is the parameter `Decimal`.
pub mod Paging
pub mod Walk
pub mod Tests
use atelia_secretary.Domain.Repository.{Actor}
use atelia_secretary.Domain.Job.{JobStatus, JobRecord}
use atelia_secretary.Domain.Event.{EventSubjectType, EventSeverity, JobEvent}
use atelia_secretary.Domain.Ids.{JobId, JobEventId, RepositoryId}
use atelia_secretary.Store.State.{conflict, invalid_cursor, StoreResult, InMemoryInner}
use atelia_secretary.Domain.Event.{debug, info, warning, error, subject_type_eq}
use atelia_secretary.Domain.Job.{status_eq}
use atelia_secretary.Domain.Repository.{actor_eq}
use atelia_secretary.Store.Publish.{event_repository_id}
use atelia_secretary.Base.{
  contains, Eq, String, ℕ, ◌+◌, Bool, true, false, ◌&&◌, ◌||◌, Option, none, some, List, [], ◌∷◌,
  ◌++◌, length, take, select, any, values, Assoc, ◌==◌, get, ok, ◌>>=◌, ok_or, ltb, leb,
  if◌then◌else◌, string_eq, nat_eq, option_eq,
}
use atelia_secretary.Domain.Time.{u64_max}

pub record Decimal : Type 0 where
  pub print : ℕ → String
  pub parse : String → Option ℕ

pub data EventCursor : Type 0 where
  beginning : EventCursor
  after_sequence : ℕ → EventCursor
  after_event_id : JobEventId → EventCursor

pub record JobQuery : Type 0 where
  pub repository_id : Option RepositoryId
  pub status : Option JobStatus
  pub requester : Option Actor
  pub page_size : Option ℕ
  pub page_token : Option String

pub record JobPage : Type 0 where
  pub jobs : List JobRecord
  pub next_page_token : Option String

pub record EventQuery : Type 0 where
  pub repository_id : Option RepositoryId
  pub cursor : EventCursor
  pub subject_ids : List String
  pub job_ids : List JobId
  pub min_severity : Option EventSeverity
  pub page_size : Option ℕ
  pub page_token : Option String

pub record EventPage : Type 0 where
  pub events : List JobEvent
  pub next_page_token : Option String
  pub resolved_cursor_sequence : Option ℕ

-- The two loop variables that change, and the verdict whether there is a next record.
module _ {R : Type 0} where
  unfoldable pub page_loop : ℕ → ℕ → ℕ → List R → List R → List R × Bool
  page_loop start size skipped retained [] = (retained, false)
  page_loop start size skipped retained (r ∷ rs) = elim (ltb skipped start) [
    | true ↦ page_loop start size (skipped + 1) retained rs
    | false ↦ elim (length retained == size) [
      | true ↦ (retained, true)
      | false ↦ page_loop start size skipped (retained ++ (r ∷ [])) rs
    ]
  ]

  abbrev pub next_token : Decimal → ℕ → List R × Bool → List R × Option String
  next_token decimal start (retained, has_next) =
      (retained, if has_next then some (decimal.print (start + length retained)) else none)

  unfoldable pub page_records : Decimal → List R → ℕ → ℕ → List R × Option String
  unfolding page_loop
  page_records decimal records start page_size =
      if page_size == 0
      then ([], none)
      else next_token decimal start (page_loop start page_size 0 [] records)

unfoldable pub page_start : Decimal → Option String → String → StoreResult ℕ
page_start decimal none collection = ok 0
page_start decimal (some token) collection =
    if token == ""
    then ok 0
    else ok_or (decimal.parse token)
        (invalid_cursor "{collection} page token is not a numeric offset")

-- An absent bound is usize::MAX, which no number of records in memory reaches.
abbrev pub page_size_or_all : {R : Type 0} → Option ℕ → List R → ℕ
page_size_or_all none records = length records
page_size_or_all (some page_size) records = page_size

-- A condition of a query that is absent admits everything.
abbrev pub admits : {T : Type 0} ⦃e : Eq T⦄ → Option T → T → Bool
admits none t = true
admits (some wanted) t = t == wanted

unfoldable pub job_matches : JobQuery → JobRecord → Bool
job_matches query job =
    admits query.repository_id job.repository_id
    && admits query.status job.status
    && admits query.requester job.requester

unfoldable pub query_jobs : Decimal → InMemoryInner → JobQuery → StoreResult JobPage
query_jobs decimal inner query = do
  start ← page_start decimal query.page_token "jobs"
  let filtered = select (λ job. job_matches query job) (values inner.jobs)
  let page = page_records decimal filtered start (page_size_or_all query.page_size filtered)
  ok (record { jobs = page.0; next_page_token = page.1 })

unfoldable pub event_cursor_sequence : InMemoryInner → EventCursor → StoreResult ℕ
event_cursor_sequence inner beginning = ok 0
event_cursor_sequence inner (after_sequence sequence) = ok sequence
event_cursor_sequence inner (after_event_id id) = do
  event ← ok_or (get inner.job_events_by_id id) (invalid_cursor "unknown event id: {}")
  ok event.sequence_number

-- `job_events_by_sequence.range(start_sequence..)`, empty where the successor overflows.
unfoldable pub after : InMemoryInner → ℕ → Assoc ℕ JobEventId
after inner sequence =
    if ltb sequence u64_max
    then select (λ entry. leb (sequence + 1) entry.0) inner.job_events_by_sequence
    else []

-- The events of the index, or the conflict of an entry without an event.
unfoldable pub collect_events :
    Assoc JobEventId JobEvent → Assoc ℕ JobEventId → StoreResult (List JobEvent)
collect_events by_id [] = ok []
collect_events by_id ((sequence, id) ∷ entries) = do
  event ← ok_or (get by_id id) (conflict "job_events" "sequence index references missing id {}")
  events ← collect_events by_id entries
  ok (event ∷ events)

abbrev pub at_most : {R : Type 0} → Option ℕ → List R → List R
at_most none records = records
at_most (some limit) records = take limit records

unfoldable pub replay_job_events :
    InMemoryInner → EventCursor → Option ℕ → StoreResult (List JobEvent)
replay_job_events inner cursor limit = do
  sequence ← event_cursor_sequence inner cursor
  collect_events inner.job_events_by_id (at_most limit (after inner sequence))

unfoldable pub severity_rank : EventSeverity → ℕ
severity_rank debug = 0
severity_rank info = 1
severity_rank warning = 2
severity_rank error = 3

abbrev is_empty : List String → Bool
is_empty [] = true
is_empty (id ∷ ids) = false

subject_or_ref : Option JobId → JobEvent → List JobId → Bool
subject_or_ref none event job_ids =
    event.subject.subject_type == EventSubjectType.job
    && any (λ job_id. job_id == event.subject.subject_id) job_ids
subject_or_ref (some job_id) event job_ids = contains job_ids job_id

severe_enough : Option EventSeverity → EventSeverity → Bool
unfolding severity_rank
severe_enough none severity = true
severe_enough (some least) severity = leb (severity_rank least) (severity_rank severity)

-- `matches_event_query` after its first conjunct, which is about the repository.
unfoldable pub matches_event_query : JobEvent → EventQuery → Bool
unfolding subject_or_ref severe_enough
matches_event_query event query =
    (is_empty query.subject_ids || contains query.subject_ids event.subject.subject_id)
    && (is_empty query.job_ids || subject_or_ref event.refs.job_id event query.job_ids)
    && severe_enough query.min_severity event.severity

repository_matches : InMemoryInner → JobEvent → Option RepositoryId → StoreResult Bool
repository_matches inner event none = ok true
repository_matches inner event (some repository_id) = do
  event_repository ← event_repository_id inner event
  ok (event_repository == some repository_id)

unfoldable pub event_matches_query : InMemoryInner → JobEvent → EventQuery → StoreResult Bool
unfolding repository_matches
event_matches_query inner event query = do
  same ← repository_matches inner event query.repository_id
  ok (same && matches_event_query event query)

-- The loop of `collect_paginated_filtered_job_events`.
unfoldable pub event_loop :
    InMemoryInner
    → EventQuery
    → ℕ
    → ℕ
    → ℕ
    → List JobEvent
    → Assoc ℕ JobEventId
    → StoreResult (List JobEvent × Bool)
event_loop inner query start size skipped retained [] = ok (retained, false)
event_loop inner query start size skipped retained ((sequence, id) ∷ entries) =
    ok_or (get inner.job_events_by_id id)
      (conflict "job_events" "sequence index references missing id {}")
    >>= λ event. event_matches_query inner event query >>= λ matches. elim matches [
      | false ↦ event_loop inner query start size skipped retained entries
      | true ↦ elim (ltb skipped start) [
        | true ↦ event_loop inner query start size (skipped + 1) retained entries
        | false ↦ elim (length retained == size) [
          | true ↦ ok (retained, true)
          | false ↦ event_loop inner query start size skipped (retained ++ (event ∷ [])) entries
        ]
      ]
    ]

unfoldable pub collect_paginated_filtered_job_events :
    Decimal → InMemoryInner → EventQuery → ℕ → ℕ → StoreResult (List JobEvent × Option String)
collect_paginated_filtered_job_events decimal inner query start page_size = do
  sequence ← event_cursor_sequence inner query.cursor
  if page_size == 0 then ok ([], none) else do
    page ← event_loop inner query start page_size 0 [] (after inner sequence)
    ok (next_token decimal start page)

unfoldable pub resolve_event_cursor_sequence : InMemoryInner → EventCursor → StoreResult (Option ℕ)
resolve_event_cursor_sequence inner beginning = ok none
resolve_event_cursor_sequence inner (after_sequence sequence) = ok (some sequence)
resolve_event_cursor_sequence inner (after_event_id id) = do
  sequence ← event_cursor_sequence inner (after_event_id id)
  ok (some sequence)

unfoldable pub query_job_events : Decimal → InMemoryInner → EventQuery → StoreResult EventPage
query_job_events decimal inner query = do
  start ← page_start decimal query.page_token "job_events"
  resolved ← resolve_event_cursor_sequence inner query.cursor
  page ←
      collect_paginated_filtered_job_events decimal inner query start
        (page_size_or_all query.page_size inner.job_events_by_sequence)
  ok (record { events = page.0; next_page_token = page.1; resolved_cursor_sequence = resolved })
