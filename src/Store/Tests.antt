-- ===== src/Store/Tests.antt =====
-- The store on a small history, crates/atelia-core/src/store.rs: a repository, a job with its
-- first event, and an update of the job.
use atelia_secretary.Store.Query.Paging.{
  collect_paginated-page_records, matching_events, page_records-take-drop,
}
use atelia_secretary.Store.Calls.Replay.{run-replay_job_events, numbers_after, numbers}
use atelia_secretary.Store.Calls.Ledger.{run-HasDenseLedger}
use atelia_secretary.Store.Calls.Jobs.{run-Continues, Continues}
use atelia_secretary.Store.Calls.Migrations.{run-HasOneMigrationLock, HasOneMigrationLock}
use atelia_secretary.Store.Calls.Tools.{run-HasResolvedResults, HasResolvedResults}
use atelia_secretary.Store.Calls.Repositories.{run-HasIsolatedRepositories, HasIsolatedRepositories}
use atelia_secretary.Store.Calls.Locks.{run-HasOrderlyLocks, HasOrderlyLocks}
use atelia_secretary.Store.State.{default_inner, InMemoryInner}
use atelia_secretary.Store.Ledger.Dense.{HasDenseLedger}
use atelia_secretary.Store.Mutate.{Host}
use atelia_secretary.Domain.Policy.{PolicyDecision, PolicyOutcome, r1}
use atelia_secretary.Domain.Tool.{ToolInvocation, ToolResult, ToolResultStatus}
use atelia_secretary.Store.Query.{
  collect_paginated_filtered_job_events, matches_event_query, event_matches_query, after,
  EventQuery, beginning, at_most, replay_job_events, Decimal, event_cursor_sequence, page_records,
  after_sequence,
}
use atelia_secretary.Base.{
  ℕ, refl, string_discrete, nat_discrete, arith, ◌>>=◌, length, ltb, drop, take, ◌≡◌,
  string_discrete, get, if◌then◌else◌, ◌+◌, true, none, some, List, [], ◌∷◌, ok,
}
use atelia_secretary.Domain.Repository as Repository
use atelia_secretary.Domain.Repository.{Actor-discrete, RepositoryRecord, Actor, agent}
use atelia_secretary.Domain.Job.{not_requested, JobRecord, JobKind, queued, running}
use atelia_secretary.Domain.Event.{
  JobEvent, EventSubjectType, default_refs, info, job_submitted, job_status_changed,
}
use atelia_secretary.Store.Calls.{
  acquire_call, find_lock_call, release_call, policy_call, invocation_call, result_call, run, Call,
  repository_call, job_call, update_call,
}

-- A host where every text is a UUID and every snapshot is written.
abbrev trusting_host : Host
trusting_host = record { parses_uuid = λ s. true; persist = λ inner. ok tt }

abbrev a_repository : RepositoryRecord
a_repository = record {
  id = "repo_1";
  schema_version = 1;
  created_at = 5;
  updated_at = 5;
  display_name = "demo";
  root_path = "/srv/demo";
  allowed_path_scope = record { root_path = "/srv/demo"; allowed_paths = "/srv/demo" ∷ [] };
  trust_state = Repository.trusted;
  owner_hint = none;
  last_observed_metadata = none;
  redactions = [];
}

abbrev queued_job : JobRecord
queued_job = record {
  id = "job_1";
  schema_version = 1;
  created_at = 6;
  updated_at = 6;
  started_at = none;
  completed_at = none;
  requester = Actor.system "daemon";
  repository_id = "repo_1";
  kind = JobKind.read;
  goal = none;
  status = queued;
  policy_summary = none;
  cancellation_state = not_requested;
  latest_event_id = none;
  redactions = [];
}

abbrev submission : JobEvent
submission = record {
  id = "evt_1";
  schema_version = 1;
  sequence_number = 0;
  created_at = 6;
  subject = record { subject_type = EventSubjectType.job; subject_id = "job_1" };
  kind = job_submitted;
  severity = info;
  public_message = "submitted";
  refs = record default_refs { repository_id = some "repo_1"; job_id = some "job_1" };
  redactions = [];
}

abbrev started_job : JobRecord
started_job = record queued_job {
  updated_at = 7;
  started_at = some 7;
  status = running;
  latest_event_id = some "evt_1";
}

abbrev start : JobEvent
start = record submission { id = "evt_2"; created_at = 7; kind = job_status_changed queued running }

abbrev history : List Call
history =
    repository_call a_repository
    ∷ job_call queued_job submission
    ∷ update_call started_job start
    ∷ []

abbrev migrating : List Call
migrating =
    acquire_call "mig_1" "leader" true 100 10
    ∷ acquire_call "mig_2" "other" true 100 20
    ∷ find_lock_call 200
    ∷ acquire_call "mig_2" "other" true 100 210
    ∷ release_call "mig_2" "other" 220
    ∷ []

abbrev a_decision : PolicyDecision
a_decision = record {
  id = "pol_1";
  schema_version = 1;
  created_at = 6;
  requester = Actor.system "daemon";
  repository_id = "repo_1";
  requested_capability = "filesystem.read";
  resource_scope = record { kind = "path"; value = "README.md" };
  tool_id = some "fs.read";
  provider_id = none;
  declared_effect = "read a file";
  current_trust_state = Repository.trusted;
  approval_available = true;
  policy_version = "policy-default-v1";
  outcome = PolicyOutcome.allowed;
  risk_tier = r1;
  reason_code = "bounded_read_allowed";
  user_reason = "";
  approval_request_ref = none;
  audit_ref = none;
  redactions = [];
}

abbrev an_invocation : ToolInvocation
an_invocation = record {
  id = "tool_1";
  schema_version = 1;
  created_at = 7;
  job_id = "job_1";
  repository_id = "repo_1";
  policy_decision_id = "pol_1";
  actor = Actor.system "daemon";
  tool_id = "fs.read";
  requested_capability = "filesystem.read";
  args_summary = "README.md";
  resolved_paths = [];
  timeout_millis = none;
  redactions = [];
}

abbrev a_result : ToolResult
a_result = record {
  id = "res_1";
  schema_version = 1;
  created_at = 8;
  invocation_id = "tool_1";
  tool_id = "fs.read";
  status = ToolResultStatus.succeeded;
  schema_ref = none;
  fields = [];
  evidence_refs = [];
  output_refs = [];
  truncation = none;
  redactions = [];
}

abbrev answering : List Call
answering =
    repository_call a_repository
    ∷ job_call queued_job submission
    ∷ policy_call a_decision
    ∷ invocation_call an_invocation
    ∷ result_call a_result
    ∷ []

-- A notation that the paging does not look into.
abbrev unary : Decimal
unary = record { print = λ n. "n"; parse = λ s. some 0 }

run-HasDenseLedger_example : HasDenseLedger (run trusting_host default_inner history)
run-HasDenseLedger_example = run-HasDenseLedger trusting_host history

run-replay_job_events_example :
    (es : List JobEvent) × (replay_job_events
        (run trusting_host default_inner history)
        (after_sequence 1)
        (some 5)
      ≡ ok es)
    × (numbers es
        ≡ at_most
            (some 5)
            (numbers_after (run trusting_host default_inner history).next_event_sequence 1))
unfolding event_cursor_sequence
run-replay_job_events_example =
    run-replay_job_events trusting_host history (after_sequence 1) (some 5) 1 refl

abbrev with_queued_job : InMemoryInner
with_queued_job = record default_inner { jobs = ("job_1", queued_job) ∷ [] }

run-Continues_example : Continues "job_1" queued_job (run trusting_host with_queued_job history)
unfolding get string_discrete
run-Continues_example = run-Continues trusting_host history with_queued_job queued_job "job_1" refl

run-HasOrderlyLocks_example : HasOrderlyLocks (run trusting_host default_inner history)
run-HasOrderlyLocks_example = run-HasOrderlyLocks trusting_host history

run-HasOneMigrationLock_example : HasOneMigrationLock (run trusting_host default_inner migrating)
run-HasOneMigrationLock_example = run-HasOneMigrationLock trusting_host migrating

run-HasIsolatedRepositories_example :
    HasIsolatedRepositories (run trusting_host default_inner history)
run-HasIsolatedRepositories_example = run-HasIsolatedRepositories trusting_host history

run-HasResolvedResults_example : HasResolvedResults (run trusting_host default_inner answering)
run-HasResolvedResults_example = run-HasResolvedResults trusting_host answering

abbrev digits : List ℕ
digits = 1 ∷ 2 ∷ 3 ∷ 4 ∷ []

page_records-take-drop_example : page_records {R = ℕ} unary digits 1 2 ≡ (
  take 2 (drop 1 digits),
  if ltb 2 (length (drop 1 digits)) then some (unary.print (1 + 2)) else none,
)
page_records-take-drop_example = page_records-take-drop unary digits 1 2 (omega arith)

-- One event that is indexed, and a query for everything.
abbrev with_one_event : InMemoryInner
with_one_event = record default_inner {
  next_event_sequence = 1;
  job_events_by_id = ("evt_1", record submission { sequence_number = 1 }) ∷ [];
  job_events_by_sequence = (1, "evt_1") ∷ [];
}

abbrev everything : EventQuery
everything = record {
  repository_id = none;
  cursor = beginning;
  subject_ids = [];
  job_ids = [];
  min_severity = some info;
  page_size = some 1;
  page_token = none;
}

collect_paginated-page_records_example :
    collect_paginated_filtered_job_events unary with_one_event everything 0 1
    ≡ ok (page_records unary (record submission { sequence_number = 1 } ∷ []) 0 1)
unfolding matching_events event_cursor_sequence after get event_matches_query matches_event_query
    string_discrete nat_discrete ◌>>=◌
collect_paginated-page_records_example =
    collect_paginated-page_records unary with_one_event everything 0 1 0
      (record submission { sequence_number = 1 } ∷ []) refl refl
