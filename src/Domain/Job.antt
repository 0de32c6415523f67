-- ===== src/Domain/Job.antt =====
-- Jobs and their life cycle, crates/atelia-core/src/domain.rs.
pub mod Lifecycle
use atelia_secretary.Base.{
  String, ℕ, Bool, true, false, not, ◌&&◌, Option, none, some, List, [], Eq, ◌==◌, string_discrete,
  Result, ok, err, ◌>>=◌, ◌>>◌, reject_if, ltb, max, if◌then◌else◌, is_none, trim, is_blank,
}
use atelia_secretary.Domain.Time.{LedgerTimestamp}
use atelia_secretary.Domain.Ids.{RepositoryId, JobId, JobEventId}
use atelia_secretary.Domain.Repository.{Actor, RedactionMarker, domain_schema_version}
use atelia_secretary.Domain.Policy.{PolicySummary}

pub data JobKind : Type 0 where
  read mutate process maintenance : JobKind
  other : String → JobKind

unfoldable pub JobKind-discrete : Discrete JobKind
JobKind-discrete = hlevel string_discrete

instance abbrev pub kind_eq : Eq JobKind
kind_eq = record { dec = JobKind-discrete }

pub data JobStatus : Type 0 where
  queued running succeeded failed blocked canceled : JobStatus

unfoldable pub JobStatus-discrete : Discrete JobStatus
JobStatus-discrete = hlevel

instance abbrev pub status_eq : Eq JobStatus
status_eq = record { dec = JobStatus-discrete }

unfoldable pub is_terminal : JobStatus → Bool
is_terminal queued = false
is_terminal running = false
is_terminal succeeded = true
is_terminal failed = true
is_terminal blocked = true
is_terminal canceled = true

-- The table of `can_transition_to` below its first test.
unfoldable pub moves_to : JobStatus → JobStatus → Bool
moves_to queued running = true
moves_to queued failed = true
moves_to queued blocked = true
moves_to queued canceled = true
moves_to running succeeded = true
moves_to running failed = true
moves_to running blocked = true
moves_to running canceled = true
moves_to _ _ = false

unfoldable pub can_transition_to : JobStatus → JobStatus → Bool
unfolding moves_to
can_transition_to from next = if from == next then true else moves_to from next

pub data CancellationState : Type 0 where
  not_requested requested cooperative_stop force_stop completed : CancellationState

unfoldable pub CancellationState-discrete : Discrete CancellationState
CancellationState-discrete = hlevel

instance abbrev pub cancellation_eq : Eq CancellationState
cancellation_eq = record { dec = CancellationState-discrete }

pub record JobRecord : Type 0 where
  pub id : JobId
  pub schema_version : ℕ
  pub created_at : LedgerTimestamp
  pub updated_at : LedgerTimestamp
  pub started_at : Option LedgerTimestamp
  pub completed_at : Option LedgerTimestamp
  pub requester : Actor
  pub repository_id : RepositoryId
  pub kind : JobKind
  pub goal : Option String
  pub status : JobStatus
  pub policy_summary : Option PolicySummary
  pub cancellation_state : CancellationState
  pub latest_event_id : Option JobEventId
  pub redactions : List RedactionMarker

unfoldable pub normalize_optional_domain_goal : Option String → Option String
unfolding trim is_blank
normalize_optional_domain_goal none = none
normalize_optional_domain_goal (some goal) = if is_blank (trim goal) then none else some (trim goal)

-- `JobRecord::new`; the fresh identifier is an argument.
unfoldable pub new_job :
    JobId → Actor → RepositoryId → JobKind → Option String → LedgerTimestamp → JobRecord
unfolding normalize_optional_domain_goal
new_job id requester repository_id kind goal created_at = record {
  id = id;
  schema_version = domain_schema_version;
  created_at = created_at;
  updated_at = created_at;
  started_at = none;
  completed_at = none;
  requester = requester;
  repository_id = repository_id;
  kind = kind;
  goal = normalize_optional_domain_goal goal;
  status = queued;
  policy_summary = none;
  cancellation_state = not_requested;
  latest_event_id = none;
  redactions = [];
}

pub data JobStatusTransitionError : Type 0 where
  invalid_transition : (from to : JobStatus) → JobStatusTransitionError
  non_monotonic_timestamp : (at latest : LedgerTimestamp) → JobStatusTransitionError

-- The maximum with an optional timestamp.
abbrev pub max_with : LedgerTimestamp → Option LedgerTimestamp → LedgerTimestamp
max_with t none = t
max_with t (some s) = max t s

-- `latest` of `ensure_monotonic_transition_timestamp`.
unfoldable pub latest_timestamp : JobRecord → LedgerTimestamp
latest_timestamp job = max_with (max_with job.updated_at job.started_at) job.completed_at

unfoldable pub ensure_monotonic_transition_timestamp :
    JobRecord → LedgerTimestamp → Result JobStatusTransitionError (Unit {0})
unfolding latest_timestamp
ensure_monotonic_transition_timestamp job at =
    reject_if (ltb at (latest_timestamp job)) (non_monotonic_timestamp at (latest_timestamp job))

abbrev set_if : Bool → LedgerTimestamp → Option LedgerTimestamp → Option LedgerTimestamp
set_if test at old = if test && is_none old then some at else old

-- The record that `transition_status` leaves behind when its tests pass.
unfoldable pub moved : JobRecord → JobStatus → LedgerTimestamp → JobRecord
unfolding is_terminal
moved job next at = record job {
  status = next;
  updated_at = at;
  started_at = set_if (next == running) at job.started_at;
  completed_at = set_if (is_terminal next) at job.completed_at;
}

unfoldable pub transition_status :
    JobRecord → JobStatus → LedgerTimestamp → Result JobStatusTransitionError JobRecord
unfolding can_transition_to ensure_monotonic_transition_timestamp moved
transition_status job next at = do
  reject_if (not (can_transition_to job.status next)) (invalid_transition job.status next)
  ensure_monotonic_transition_timestamp job at
  ok (moved job next at)
