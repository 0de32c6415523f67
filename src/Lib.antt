-- ===== src/Lib.antt =====
-- The core of the Atelia secretary: its domain records, its policy engine and its ledger store.
--
-- The program keeps a ledger of repositories, jobs, job events, policy decisions, locks, schema
-- migrations, tool invocations, tool results and audit records. Clients submit jobs; the policy
-- engine decides whether an action runs; the store checks every record against those it holds and
-- appends numbered job events, which clients replay, page through and watch.
--
-- Files and code:
--   Base        shared helpers: Boolean tests, lists, equality, results, texts and maps.
--   Domain      crates/atelia-core/src/domain.rs, one file per group of records. Job.antt has
--               JobStatus::can_transition_to and JobRecord::transition_status, Lock.antt has
--               LockDecision::reclaim, Migration.antt has MigrationLockRecord.
--   Policy      crates/atelia-core/src/policy.rs: DefaultPolicyEngine::evaluate, and in Names.antt
--               Capability::from_name with the normalization of names that
--               crates/atelia-core/src/runtime.rs applies.
--   Store       crates/atelia-core/src/store.rs. State.antt is InMemoryInner with StoreError;
--               Mutate.antt has mutate and mutate_with_published_events; Subjects, EventRefs and
--               JobUpdate are the checks of events and updates; Ledger, Repositories, Locks,
--               Migrations and Tools have the operations, each as a mutator (named `..._draft`)
--               and as the transaction of the source's name; Publish derives the repository of an
--               event; Query has replay, queries and paging, Snapshot the recent
--               records of a repository, and Loaded the check of a loaded ledger; Calls
--               has histories of operations, below it one file for what each kind of record keeps
--               over a history, and Acquire.antt for the migration lock.
--
--   Output      crates/atelia-core/src/tool_output.rs. Budget.antt is apply_render_byte_budget and
--               the cutting of texts and lists, Render.antt is renderable_result with the optional
--               channels, Toon.antt the values and sections of TOON, Body.antt render_toon, and
--               Plain.antt render_text, render_json and render_tool_result_with_policy. The other
--               files below it are proofs: bytes in Cut, Counted, Filled, Within and Budgeted, fields in
--               Channels and Visible, lines in Avoids, Quoting, Lines, Sections, Cutting, Singles and LineBudget.
--   Settings    crates/atelia-core/src/settings.rs: defaults, overrides and the policy of rendering
--               that they yield; Service.antt has InMemoryToolOutputSettingsService and
--               Migration.antt how it takes over settings of the old form. Output renders under
--               that policy.
--   Runtime     crates/atelia-core/src/runtime.rs: the events of the runtime with their references,
--               and cancel_job, which calls the store's append_job_events_and_update_job;
--               Truncation.antt is what it truncates of a result, Fitting.antt that it then fits;
--               Cancel.antt and Outcome.antt are proofs on cancel_job.
--
-- How the code is read: an identifier is a text. A fresh identifier, and the present time where
-- the code asks the clock, are arguments. Whether a text is a UUID, and whether the snapshot of a
-- draft reaches the disk, is the record `Host`; the decimal notation of page tokens is the record
-- `Decimal`; how numbers are printed in rendered output is the record `Notation`, and what serde_json
-- writes is the record `Json`. A usize has 64 bits, and texts are in memory, so that the sum of their
-- lengths does not wrap. A timestamp is the distance of its milliseconds from the least i64, so that order,
-- sums and the clamp at the greatest i64 are those of the source; a sequence number is a u64
-- whose checked_add is written out. A HashMap is an association list in the order of insertion,
-- which stands for its unspecified order of iteration; a BTreeMap is one in the order of its
-- keys. The message of an error is the template of the source's `format!`. Loops are structural
-- recursion on the list that they read, so no fuel is needed.
--
-- A call is one of the fifteen operations of `Call` in Store/Calls.antt, whether it succeeds or
-- not; these are the operations of the trait SecretaryStore that change the state, except those
-- that carry the idempotency record of a submission.
--
-- Not modelled: those operations (among them the terminal result of a tool), the other checks of
-- loaded snapshots, the plain getters and listings, the registry of extensions, the live watch over tokio
-- channels, a poisoned mutex, the file system, the tools themselves and
-- run_tool_job, which runs them, artifacts with their errors, and the daemon with its protocol.
pub mod Base
pub mod Domain
pub mod Policy
pub mod Store
pub mod Output
pub mod Settings
pub mod Runtime
