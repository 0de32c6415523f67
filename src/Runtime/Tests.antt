-- ===== src/Runtime/Tests.antt =====
-- The theorems on the runtime at concrete inputs.
use atelia_secretary.Runtime.Truncation.{truncate_oversized_tool_result_fields}
use atelia_secretary.Runtime.Fitting.{truncate_oversized_tool_result_fields-renders}
use atelia_secretary.Settings.{
  validate_inline_lines, default_defaults, validate_inline_bytes, ToolOutputDefaults, validate,
}
use atelia_secretary.Output.Format.{Notation}
use atelia_secretary.Output.Budget.{max_inline_bytes_as_usize, apply_render_byte_budget}
use atelia_secretary.Runtime.Cancelable.{IsCancelable}
use atelia_secretary.Domain.Event.{has_valid_subject_id}
use atelia_secretary.Store.Checks.{get_record}
use atelia_secretary.Runtime.Cancel.{
  cancel_job-canceled, canceled_store, numbered, final, canceled_job, cancel_job-err,
}
use atelia_secretary.Store.Ledger.{latest}
use atelia_secretary.Runtime.Outcome.{IsCanceled, cancel_job-IsCanceled}
use atelia_secretary.Store.State.{default_inner, InMemoryInner}
use atelia_secretary.Store.Mutate.{Host}
use Prim.Native.Char.{char}
use atelia_secretary.Output.{reject_oversize}
use atelia_secretary.Domain.Tool.{StructuredValue, ToolResultStatus, ToolResult, text_list}
use atelia_secretary.Base.{
  ap, ℕ, zero, suc, strip_prefix, ◌>>◌, ◌>>=◌, option_eq, nat_eq, string_eq, string_discrete, get,
  true, false, ok, err, none, some, [], ◌∷◌, ◌≡◌, refl, arith, inr, String,
}
use atelia_secretary.Domain.Repository.{repository_scope, RepositoryRecord, trusted, agent}
use atelia_secretary.Runtime.{
  CancelJobReceipt, conflict, plan_cancellation, Stamp, cancel_job, store,
}
use atelia_secretary.Domain.Job.{
  latest_timestamp, JobStatus-discrete, JobKind, status_eq, JobRecord, running, succeeded,
  not_requested,
}

abbrev host : Host
host = record { parses_uuid = λ s. true; persist = λ inner. ok tt }

abbrev a_home : RepositoryRecord
a_home = record {
  id = "repo_1";
  schema_version = 1;
  created_at = 5;
  updated_at = 5;
  display_name = "one";
  root_path = "/srv/one";
  allowed_path_scope = repository_scope "/srv/one";
  trust_state = trusted;
  owner_hint = none;
  last_observed_metadata = none;
  redactions = [];
}

abbrev running_job : JobRecord
running_job = record {
  id = "job_1";
  schema_version = 1;
  created_at = 6;
  updated_at = 8;
  started_at = some 8;
  completed_at = none;
  requester = agent "a" none;
  repository_id = "repo_1";
  kind = JobKind.read;
  goal = none;
  status = running;
  policy_summary = none;
  cancellation_state = not_requested;
  latest_event_id = some "evt_1";
  redactions = [];
}

abbrev finished_job : JobRecord
finished_job = record running_job { id = "job_2"; status = succeeded; completed_at = some 9 }

abbrev inner : InMemoryInner
inner = record default_inner {
  repositories = ("repo_1", a_home) ∷ [];
  jobs = ("job_1", running_job) ∷ ("job_2", finished_job) ∷ [];
  next_event_sequence = 4;
}

abbrev cancel : Stamp
cancel = record { id = "evt_5"; at = 20 }

abbrev status : Stamp
status = record { id = "evt_6"; at = 21 }

running_job-IsCancelable : IsCancelable host inner running_job cancel status 20
unfolding get string_discrete has_valid_subject_id latest_timestamp JobStatus-discrete strip_prefix
running_job-IsCancelable = record {
  stored = refl;
  listed = refl;
  home = a_home;
  known = refl;
  valid_id = refl;
  unfinished = inr refl;
  not_asked = refl;
  uncompleted = refl;
  started = refl;
  in_time = omega arith;
  fresh_cancel = refl;
  fresh_status = refl;
  distinct = refl;
  room = omega arith;
  written = λ after. refl;
}

abbrev reason : String
reason = "no longer needed"

cancel_job-canceled_example : cancel_job cancel status 20 reason host "job_1" inner ≡ (
  ok (record {
    job =
        latest
          (canceled_job host inner running_job cancel status 20 reason running_job-IsCancelable)
          (final host inner running_job cancel status 20 reason running_job-IsCancelable);
    events =
        (numbered host inner running_job cancel status 20 reason running_job-IsCancelable).0
        ∷ (numbered host inner running_job cancel status 20 reason running_job-IsCancelable).1
        ∷ [];
  }),
  canceled_store host inner running_job cancel status 20 reason running_job-IsCancelable,
)
cancel_job-canceled_example =
    cancel_job-canceled host inner running_job cancel status 20 reason running_job-IsCancelable

abbrev a_receipt : CancelJobReceipt
a_receipt = record {
  job =
      latest (canceled_job host inner running_job cancel status 20 reason running_job-IsCancelable)
        (final host inner running_job cancel status 20 reason running_job-IsCancelable);
  events =
      (numbered host inner running_job cancel status 20 reason running_job-IsCancelable).0
      ∷ (numbered host inner running_job cancel status 20 reason running_job-IsCancelable).1
      ∷ [];
}

canceled_now : (cancel_job cancel status 20 reason host "job_1" inner).0 ≡ ok a_receipt
canceled_now =
    ap (λ p. p.0)
      (cancel_job-canceled host inner running_job cancel status 20 reason running_job-IsCancelable)

cancel_job-IsCanceled_example :
    IsCanceled host inner "job_1" cancel status 20 reason a_receipt
      (cancel_job cancel status 20 reason host "job_1" inner).1
cancel_job-IsCanceled_example =
    cancel_job-IsCanceled host inner "job_1" cancel status 20 reason a_receipt canceled_now

refused :
    (cancel_job cancel status 20 reason host "job_2" inner).0
    ≡ err (store (conflict "jobs" "job {} cannot be cancelled in state {:?}"))
unfolding cancel_job plan_cancellation get_record get string_discrete JobStatus-discrete ◌>>=◌ ◌>>◌
refused = refl

cancel_job-err_example : (cancel_job cancel status 20 reason host "job_2" inner).1 ≡ inner
cancel_job-err_example =
    cancel_job-err host inner "job_2" cancel status 20 reason
      (store (conflict "jobs" "job {} cannot be cancelled in state {:?}")) refused

copies : ℕ → String
copies zero = ""
copies (suc n) = String.◌∷◌ (char 120 tt) (copies n)

abbrev hashes : Notation
hashes = record {
  print = λ n. "#";
  print_i64 = λ n. "#";
  print_hex = λ n. "#";
  parses_i64 = λ s. false;
  parses_f64 = λ s. false;
}

abbrev small_defaults : ToolOutputDefaults
small_defaults = record default_defaults { max_inline_bytes = 256 }

abbrev large_result : ToolResult
large_result = record {
  id = "res_1";
  schema_version = 1;
  created_at = 5;
  invocation_id = "inv_1";
  tool_id = "echo";
  status = ToolResultStatus.succeeded;
  schema_ref = none;
  fields =
      record { key = "log"; value = StructuredValue.text (copies 300) }
      ∷ record { key = "lines"; value = text_list (copies 200 ∷ copies 100 ∷ []) }
      ∷ [];
  evidence_refs = [];
  output_refs = [];
  truncation = none;
  redactions = [];
}

small_defaults_valid : validate small_defaults ≡ ok tt
unfolding validate validate_inline_bytes validate_inline_lines ◌>>◌
small_defaults_valid = refl

abbrev truncated_large : ToolResult
truncated_large =
    (truncate_oversized_tool_result_fields large_result (max_inline_bytes_as_usize 256)).0

truncate_oversized_tool_result_fields-renders_example :
    apply_render_byte_budget hashes truncated_large 256 reject_oversize ≡ ok (truncated_large, none)
truncate_oversized_tool_result_fields-renders_example =
    truncate_oversized_tool_result_fields-renders hashes large_result small_defaults reject_oversize
      small_defaults_valid
