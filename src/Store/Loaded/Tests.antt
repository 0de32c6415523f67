-- ===== src/Store/Loaded/Tests.antt =====
-- The check of a loaded ledger of one event.
use atelia_secretary.Base.{
  ◌≡◌, ◌>>=◌, ◌>>◌, refl, true, none, some, [], ◌∷◌, ok, arith, get, option_eq, nat_eq, string_eq,
  string_discrete, nat_discrete, strip_prefix,
}
use atelia_secretary.Domain.Repository.{repository_scope, RepositoryRecord, trusted}
use atelia_secretary.Domain.Event.{
  JobEvent, has_valid_subject_id, EventSubjectType-discrete, repository, message, info,
  default_refs,
}
use atelia_secretary.Store.State.{default_inner, InMemoryInner}
use atelia_secretary.Store.Subjects.{
  validate_event_subject, subject_repository_id, repository_of_subject,
}
use atelia_secretary.Store.EventRefs.{
  validate_event_refs, validate_new_job_event, check_repository_ref, ensure_subject_ref_matches,
  check_job_ref, check_policy_ref, check_lock_ref, check_invocation_ref, check_result_ref,
  check_audit_ref,
}
use atelia_secretary.Store.Checks.{ensure_same_repository, ensure_ref_exists}
use atelia_secretary.Store.Loaded.{
  remove, without_event, loaded_step, loaded_loop, validate_loaded_job_event_sequence,
}
use atelia_secretary.Store.Loaded.Sound.{
  IsSoundLedger, validate_loaded_job_event_sequence-IsSoundLedger,
}

abbrev a_home : RepositoryRecord
a_home = record {
  id = "repo_1";
  schema_version = 1;
  created_at = 5;
  updated_at = 5;
  display_name = "one";
  root_path = "/srv/one";
  allowed_path_scope = repository_scope "/srv/one";
  trust_state = trusted;
  owner_hint = none;
  last_observed_metadata = none;
  redactions = [];
}

abbrev registered : JobEvent
registered = record {
  id = "evt_1";
  schema_version = 1;
  sequence_number = 1;
  created_at = 6;
  subject = record { subject_type = repository; subject_id = "repo_1" };
  kind = message;
  severity = info;
  public_message = "registered";
  refs = record default_refs { repository_id = some "repo_1" };
  redactions = [];
}

abbrev inner : InMemoryInner
inner = record default_inner {
  repositories = ("repo_1", a_home) ∷ [];
  job_events_by_id = ("evt_1", registered) ∷ [];
  job_events_by_sequence = (1, "evt_1") ∷ [];
  next_event_sequence = 1;
}

accepted : validate_loaded_job_event_sequence (λ s. true) inner ≡ ok tt
unfolding validate_loaded_job_event_sequence loaded_loop loaded_step without_event remove
    validate_new_job_event has_valid_subject_id validate_event_subject subject_repository_id
    repository_of_subject validate_event_refs EventSubjectType-discrete get string_discrete
    nat_discrete strip_prefix ◌>>=◌ ◌>>◌ ensure_same_repository check_repository_ref
    ensure_subject_ref_matches ensure_ref_exists check_job_ref check_policy_ref check_lock_ref
    check_invocation_ref check_result_ref check_audit_ref
accepted = refl

validate_loaded_job_event_sequence-IsSoundLedger_example : IsSoundLedger inner
validate_loaded_job_event_sequence-IsSoundLedger_example =
    validate_loaded_job_event_sequence-IsSoundLedger (λ s. true) inner (omega arith) accepted
