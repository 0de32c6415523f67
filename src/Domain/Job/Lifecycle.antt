-- ===== src/Domain/Job/Lifecycle.antt =====
-- What `transition_status` keeps and forbids, crates/atelia-core/src/domain.rs.
use atelia_secretary.Base.{
  ◌>>=◌, ◌>>◌, String, ◌≤◌, ◌≡◌, refl, true, Option, some, List, [], ◌∷◌, Result, ok, err, arith,
  is_some, ◌∙◌, ap,
}
use atelia_secretary.Domain.Time.{LedgerTimestamp}
use atelia_secretary.Domain.Ids.{RepositoryId, JobId}
use atelia_secretary.Domain.Repository.{Actor}
use atelia_secretary.Domain.Job.{
  JobStatus, JobStatusTransitionError, running, JobKind, JobRecord, is_terminal, can_transition_to,
  latest_timestamp, moved, new_job, transition_status,
}

-- Timestamps in order, and present exactly where the status wants them.
pub record IsWellFormed (job : JobRecord) : Type 0 where
  pub updated : job.created_at ≤ job.updated_at
  pub started_before : (t : LedgerTimestamp) → job.started_at ≡ some t → t ≤ job.updated_at
  pub completed_before : (t : LedgerTimestamp) → job.completed_at ≡ some t → t ≤ job.updated_at
  pub running_started : job.status ≡ running → is_some job.started_at ≡ true
  pub terminal_completed : is_some job.completed_at ≡ is_terminal job.status

pub new_job-IsWellFormed :
    (id : JobId) (requester : Actor) (repository_id : RepositoryId) (kind : JobKind)
    (goal : Option String) (at : LedgerTimestamp)
    → IsWellFormed (new_job id requester repository_id kind goal at)
unfolding new_job is_terminal
new_job-IsWellFormed id requester repository_id kind goal at = record {
  updated = omega arith;
  started_before = λ t e. cc;
  completed_before = λ t e. cc;
  running_started = λ e. cc;
  terminal_completed = refl;
}

-- When the tests of `transition_status` pass.
pub transition_status-ok :
    (job : JobRecord) (next : JobStatus) (at : LedgerTimestamp) {after : JobRecord}
    → transition_status job next at ≡ ok after
    → (can_transition_to job.status next ≡ true)
      × (latest_timestamp job ≤ at)
      × (after ≡ moved job next at)
unfolding ◌>>=◌ ◌>>◌ transition_status
transition_status-ok job next at e = ground arith

pub moved-IsWellFormed :
    (job : JobRecord) (next : JobStatus) (at : LedgerTimestamp)
    → can_transition_to job.status next ≡ true
    → latest_timestamp job ≤ at
    → IsWellFormed job
    → IsWellFormed (moved job next at)
unfolding moved latest_timestamp can_transition_to is_terminal
moved-IsWellFormed job next at can late w = record {
  updated = ground (arith, w.updated);
  started_before = λ t e. ground (arith, w.started_before t);
  completed_before = λ t e. ground (arith, w.completed_before t);
  running_started = λ e. ground (arith, w.running_started);
  terminal_completed = ground (arith, w.terminal_completed);
}

-- Every step of the life cycle keeps a job well formed.
pub transition_status-IsWellFormed :
    (job after : JobRecord) (next : JobStatus) (at : LedgerTimestamp)
    → transition_status job next at ≡ ok after
    → IsWellFormed job
    → IsWellFormed after
transition_status-IsWellFormed job after next at e w =
    let (can, late, same) = transition_status-ok job next at e in
    rw same (moved-IsWellFormed job next at can late w)

abbrev settle {ℓ} : {E : Type ℓ} → JobRecord → Result E JobRecord → JobRecord
settle job (ok after) = after
settle job (err e) = job

-- A history of requested transitions; one that is refused leaves the job as it was.
unfoldable pub advance : JobRecord → List (JobStatus × LedgerTimestamp) → JobRecord
advance job [] = job
advance job ((next, at) ∷ rest) = advance (settle job (transition_status job next at)) rest

settle-IsWellFormed :
    (job : JobRecord) (next : JobStatus) (at : LedgerTimestamp)
    → IsWellFormed job
    → IsWellFormed (settle job (transition_status job next at))
settle-IsWellFormed job next at w = go (transition_status job next at) refl
  where
    go :
        (r : Result JobStatusTransitionError JobRecord)
        → transition_status job next at ≡ r
        → IsWellFormed (settle job r)
    go (ok after) e = transition_status-IsWellFormed job after next at e w
    go (err x) e = w

-- Whatever transitions are requested of a new job, it stays well formed.
pub advance-IsWellFormed :
    (job : JobRecord) (history : List (JobStatus × LedgerTimestamp))
    → IsWellFormed job
    → IsWellFormed (advance job history)
unfolding advance
advance-IsWellFormed job [] w = w
advance-IsWellFormed job ((next, at) ∷ rest) w =
    advance-IsWellFormed (settle job (transition_status job next at)) rest
      (settle-IsWellFormed job next at w)

-- What a finished job keeps: its status, its completion time and its start time.
abbrev pub SameOutcome : JobRecord → JobRecord → Type 0
SameOutcome job after =
    (after.status ≡ job.status)
    × (after.completed_at ≡ job.completed_at)
    × (after.started_at ≡ job.started_at)

settle-SameOutcome :
    (job : JobRecord) (next : JobStatus) (at : LedgerTimestamp)
    → is_terminal job.status ≡ true
    → is_some job.completed_at ≡ true
    → SameOutcome job (settle job (transition_status job next at))
unfolding ◌>>=◌ ◌>>◌ transition_status is_terminal
settle-SameOutcome job next at t c = ground arith

-- A terminal job that has its completion time keeps status, start and completion, whatever
-- transitions are requested of it later.
pub advance-SameOutcome :
    (job : JobRecord) (history : List (JobStatus × LedgerTimestamp))
    → is_terminal job.status ≡ true
    → is_some job.completed_at ≡ true
    → SameOutcome job (advance job history)
unfolding advance
advance-SameOutcome job [] t c = (refl, refl, refl)
advance-SameOutcome job ((next, at) ∷ rest) t c =
    let after = settle job (transition_status job next at) in
    let (s, d, b) = settle-SameOutcome job next at t c in
    let (s', d', b') =
      advance-SameOutcome after rest (cc (ap is_terminal s, t)) (cc (ap is_some d, c)) in
    (s' ∙ s, d' ∙ d, b' ∙ b)
