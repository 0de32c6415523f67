-- ===== src/Store/JobUpdate/Evolution.antt =====
-- What an accepted update does to a job, crates/atelia-core/src/store.rs.
use atelia_secretary.Domain.Job.Lifecycle.{transition_status-ok}
use atelia_secretary.Domain.Ids.{RepositoryId}
use atelia_secretary.Store.Checks.{ensure_same_repository}
use atelia_secretary.Domain.Event.{JobEvent}
use atelia_secretary.Domain.Repository.{actor_eq}
use atelia_secretary.Domain.Ids.{JobEventId}
use atelia_secretary.Base.{
  Option, ◌!=◌, option_eq, nat_eq, string_eq, if◌then◌else◌, map_err-eq-ok, >>=-eq-ok, Eq, String,
  ltb_false→le, true, ◌≡◌, refl, ◌∙◌, ◌⊎◌, inr, >>-eq-ok, reject_if-false, arith, ok, ◌≤◌,
}
use atelia_secretary.Domain.Job.{
  kind_eq, status_eq, cancellation_eq, moves_to, JobRecord, JobStatus, not_requested, is_terminal,
  can_transition_to,
}
use atelia_secretary.Store.JobUpdate.{
  validate_job_lifecycle_update, validate_job_cancellation_update, validate_status_change,
  ensure_immutable_job_field, validate_same_status, validate_job_update_against,
}

-- A path of legal transitions.
pub data Reaches : JobStatus → JobStatus → Type 0 where
  stay : {a : JobStatus} → Reaches a a
  move : {a b c : JobStatus} → can_transition_to a b ≡ true → Reaches b c → Reaches a c

Reaches-trans : {a b c : JobStatus} → Reaches a b → Reaches b c → Reaches a c
Reaches-trans stay q = q
Reaches-trans (move can p) q = move can (Reaches-trans p q)

-- The record `new` is a later state of the job that `old` records: what is fixed is the same, time
-- does not run backwards, the status moved along legal transitions, a finished job keeps its
-- status and both times, and a cancellation is never taken back.
pub record Follows (old new : JobRecord) : Type 0 where
  pub same_repository : new.repository_id ≡ old.repository_id
  pub same_version : new.schema_version ≡ old.schema_version
  pub same_creation : new.created_at ≡ old.created_at
  pub same_requester : new.requester ≡ old.requester
  pub same_kind : new.kind ≡ old.kind
  pub same_goal : new.goal ≡ old.goal
  pub later : old.updated_at ≤ new.updated_at
  pub progress : Reaches old.status new.status
  pub frozen :
      is_terminal old.status ≡ true
      → (new.status ≡ old.status)
        × (new.started_at ≡ old.started_at)
        × (new.completed_at ≡ old.completed_at)
  pub cancellation :
      (old.cancellation_state ≡ not_requested) ⊎ (new.cancellation_state ≡ old.cancellation_state)

pub Follows-refl : (job : JobRecord) → Follows job job
Follows-refl job = record {
  same_repository = refl;
  same_version = refl;
  same_creation = refl;
  same_requester = refl;
  same_kind = refl;
  same_goal = refl;
  later = omega arith;
  progress = stay;
  frozen = λ t. (refl, refl, refl);
  cancellation = inr refl;
}

pub Follows-trans : (a b c : JobRecord) → Follows a b → Follows b c → Follows a c
Follows-trans a b c p q = record {
  same_repository = q.same_repository ∙ p.same_repository;
  same_version = q.same_version ∙ p.same_version;
  same_creation = q.same_creation ∙ p.same_creation;
  same_requester = q.same_requester ∙ p.same_requester;
  same_kind = q.same_kind ∙ p.same_kind;
  same_goal = q.same_goal ∙ p.same_goal;
  later = omega (arith, p.later, q.later);
  progress = Reaches-trans p.progress q.progress;
  frozen = λ t. ground (arith, p.frozen t, q.frozen);
  cancellation = ground (arith, p.cancellation, q.cancellation);
}

-- The latest event plays no part in it.
pub Follows-relabel :
    (old new : JobRecord) (x y : Option JobEventId)
    → Follows old new
    → Follows (record old { latest_event_id = x }) (record new { latest_event_id = y })
Follows-relabel old new x y p = record {
  same_repository = p.same_repository;
  same_version = p.same_version;
  same_creation = p.same_creation;
  same_requester = p.same_requester;
  same_kind = p.same_kind;
  same_goal = p.same_goal;
  later = p.later;
  progress = p.progress;
  frozen = p.frozen;
  cancellation = p.cancellation;
}

module _ (existing job : JobRecord) (event : JobEvent) where
  same_repository-eq :
      (collection context : String) (a b : RepositoryId)
      → ensure_same_repository collection context a b ≡ ok tt
      → b ≡ a
  unfolding ensure_same_repository
  same_repository-eq collection context a b e = ground arith

  immutable-eq :
      {T : Type 0} ⦃e : Eq T⦄ (name : String) (a b : T)
      → ensure_immutable_job_field name a b ≡ ok tt
      → b ≡ a
  unfolding ensure_immutable_job_field
  immutable-eq name a b h = ground arith

  -- An accepted status change is one of `transition_status`.
  status_change-legal :
      validate_status_change existing job event ≡ ok tt
      → can_transition_to existing.status job.status ≡ true
  unfolding validate_status_change
  status_change-legal h =
      let (told, h1) = >>-eq-ok _ _ h in
      let (expected, p, h2) = >>=-eq-ok _ _ h1 in
      (transition_status-ok existing job.status job.updated_at (map_err-eq-ok _ _ p)).0

  lifecycle-monotonic :
      validate_job_lifecycle_update existing job event ≡ ok tt
      → existing.updated_at ≤ job.updated_at
  unfolding validate_job_lifecycle_update
  lifecycle-monotonic h = ltb_false→le _ _ (reject_if-false _ _ (>>-eq-ok _ _ h).0)

  lifecycle-branch :
      validate_job_lifecycle_update existing job event ≡ ok tt
      → (if job.status != existing.status
          then validate_status_change existing job event
          else validate_same_status existing job event)
        ≡ ok tt
  unfolding validate_job_lifecycle_update
  lifecycle-branch h = (>>-eq-ok _ _ (>>-eq-ok _ _ h).1).0

  lifecycle-legal :
      validate_job_lifecycle_update existing job event ≡ ok tt
      → can_transition_to existing.status job.status ≡ true
  unfolding can_transition_to
  lifecycle-legal h = ground (arith, lifecycle-branch h, status_change-legal)

  same_status-times :
      validate_same_status existing job event ≡ ok tt
      → (job.started_at ≡ existing.started_at) × (job.completed_at ≡ existing.completed_at)
  unfolding validate_same_status
  same_status-times h = let times = reject_if-false _ _ (>>-eq-ok _ _ h).1 in ground arith

  terminal-stuck : (a b : JobStatus) → can_transition_to a b ≡ true → is_terminal a ≡ true → b ≡ a
  unfolding can_transition_to is_terminal moves_to
  terminal-stuck a b can t = ground arith

  lifecycle-frozen :
      validate_job_lifecycle_update existing job event ≡ ok tt
      → is_terminal existing.status ≡ true
      → (job.status ≡ existing.status)
        × (job.started_at ≡ existing.started_at)
        × (job.completed_at ≡ existing.completed_at)
  lifecycle-frozen h t =
      let stuck = terminal-stuck _ _ (lifecycle-legal h) t in
      ground (arith, lifecycle-branch h, same_status-times)

  cancellation-kept :
      validate_job_cancellation_update existing job event ≡ ok tt
      → (existing.cancellation_state ≡ not_requested)
        ⊎ (job.cancellation_state ≡ existing.cancellation_state)
  unfolding validate_job_cancellation_update
  cancellation-kept h = ground arith

  -- An update that passes the checks follows the record that it replaces: what is fixed is the
  -- same, time does not run backwards, the status moved legally, and a finished job is kept.
  pub validate_job_update_against-Follows :
      validate_job_update_against existing job event ≡ ok tt → Follows existing job
  unfolding validate_job_update_against
  validate_job_update_against-Follows h =
      let (same, h1) = >>-eq-ok _ _ h in
      let (version, h2) = >>-eq-ok _ _ h1 in
      let (creation, h3) = >>-eq-ok _ _ h2 in
      let (requester, h4) = >>-eq-ok _ _ h3 in
      let (kind, h5) = >>-eq-ok _ _ h4 in
      let (goal, h6) = >>-eq-ok _ _ h5 in
      let (lifecycle, h7) = >>-eq-ok _ _ h6 in
      let (cancellation, h8) = >>-eq-ok _ _ h7 in
      record {
        same_repository = same_repository-eq _ _ _ _ same;
        same_version = immutable-eq "schema_version" _ _ version;
        same_creation = immutable-eq "created_at" _ _ creation;
        same_requester = immutable-eq "requester" _ _ requester;
        same_kind = immutable-eq "kind" _ _ kind;
        same_goal = immutable-eq "goal" _ _ goal;
        later = lifecycle-monotonic lifecycle;
        progress = move (lifecycle-legal lifecycle) stay;
        frozen = lifecycle-frozen lifecycle;
        cancellation = cancellation-kept cancellation;
      }
