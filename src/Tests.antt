-- ===== src/Tests.antt =====
-- A small table, runs of the code on it, and the results of the other modules at it.
mod Shipper
mod Documents
mod Files
mod Runner
mod Remote
mod Logs
mod Directed
use native.Mathlib.Decide.{ℕ_discrete}
use quarry.Base.{
  All, ◌↔◌, update, select, String-discrete, String-eq, ◌==◌, ℕ, ◌≤◌, max, String, List, [], ◌∷◌,
  none, some, true, false, ◌≡◌, ◌≢◌, refl, inl, inr, arith, find, pos, any,
}
use quarry.Store.Types.{
  Job, succeeded, skipped, JobState, JobState-discrete, JobDep, Run, RunState-discrete, RunState,
  LogChunk, FailureKind,
}
use quarry.Store.Monad.{
  Store, Metrics, ok, err, fenced, final, ◌>>=◌, guard, tx, now, null_str, return, throw,
}
use quarry.Store.Jobs.{
  cancel_job, request_job_cancel, claim_job, get_job, update_jobs, finish_job, list_jobs,
  requeue_job, transition_pending_job,
}
use quarry.Store.Events.{list_events, append_event, insert_event}
use quarry.Store.Runs.{list_job_deps, get_run, set_run_state, update_runs}
use quarry.Scheduler.Types.{enter, finished, is_terminal}
use quarry.Scheduler.Advance.{
  advance, settle, final_state, finish_run, move, next_state, pass, set_state, state_at, visit,
}
use quarry.Scheduler.Complete.{is_reportable, complete_job, record_result, Status, Result, complete}
use quarry.Scheduler.Logs.{Progress, append_logs, append_chunks, append_chunk}
use quarry.Store.Logs.{insert_log_chunk}
use quarry.Scheduler.Fence.{claim_job_once, complete_duplicate, complete_stale, append_logs_stale}
use quarry.Scheduler.Verdict.{verdict, final_state-verdict}
use quarry.Scheduler.LogCap.{stored_bytes, append_logs_capped}
use quarry.Scheduler.Redelivery.{append_chunks_again}
use quarry.Scheduler.Types.{Scheduler, labels_subset}
use quarry.Scheduler.Labels.{Accepts, labels_subset-Accepts}
use quarry.Scheduler.Heartbeat.{JobRef, Order, direct}
use quarry.Scheduler.Directives.{Told, direct-Told}
use quarry.Store.Rules.{Holds}
use quarry.Scheduler.Cancel.{cancel_run, cancel_live, cancel_jobs, cancel_one}
use quarry.Life.Cleared.{IsCleared, cancel_run-IsCleared}
use quarry.Life.Total.{HasRun, advance_returns}
use quarry.Life.Quiet.{Found}
use quarry.Life.Unique.{IsUnique}
use quarry.Life.History.{Request, run}
use quarry.Life.Laws.{run-IsUnique, run-AllSound, run-final, AllSound}
use quarry.Life.Order.{run-IsOrdered, IsOrdered, IsLinked}

abbrev job : String → String → JobState → Job
job id name state = record {
  id = id;
  run_id = "r";
  name = name;
  spec_json = "{}";
  state = state;
  attempt = 0;
  max_attempts = 3;
  runner_id = none;
  lease_expires_at = none;
  failure_kind = none;
  exit_code = none;
  error = none;
  queued_at = 1;
  started_at = none;
  finished_at = none;
  cancel_requested_at = none;
  cancel_reason = none;
}

abbrev build : Job
build = record (job "b" "build" JobState.running) {
  attempt = 1;
  runner_id = some "w";
  lease_expires_at = some 900;
  started_at = some 2;
}

abbrev lint : Job
lint = record (job "l" "lint" JobState.failed) {
  attempt = 1;
  failure_kind = some FailureKind.exit_code;
}

abbrev test : Job
test = job "t" "test" JobState.pending

abbrev doc : Job
doc = job "d" "doc" JobState.queued

abbrev needs_build : JobDep
needs_build = record { job_id = "t"; needs_job_id = "b" }

abbrev the_run : Run
the_run = record {
  id = "r";
  source_key = "";
  pipeline_yaml = "";
  commit_sha = none;
  ref = none;
  trigger = "api";
  state = RunState.running;
  created_at = 1;
  started_at = some 2;
  finished_at = none;
}

abbrev no_metrics : Metrics
no_metrics = record {
  entered = [];
  durations = [];
  claims = [];
  lease_expirations = 0;
  log_bytes = 0;
}

abbrev table : Store
table = record {
  clock = λ n. n;
  runs = the_run ∷ [];
  jobs = build ∷ test ∷ lint ∷ doc ∷ [];
  job_deps = needs_build ∷ [];
  runners = [];
  events = [];
  next_event = 1;
  log_chunks = [];
  artifacts = [];
  metrics = no_metrics;
}

abbrev success : Result
success = record {
  status = Status.succeeded;
  failure_kind = FailureKind.other "";
  exit_code = some (pos 0);
  error = "";
}

abbrev requests : List Request
requests = Request.completes "b" 1 success ∷ Request.cancels "r" ∷ []

differ : (a b : String) → (a == b) ≡ false → a ≢ b
differ a b e h = ground (arith, e, h)

table-IsUnique : IsUnique table
unfolding String-discrete
table-IsUnique = (
  (differ "t" "b" refl, (differ "l" "b" refl, (differ "d" "b" refl, tt))),
  ((differ "l" "t" refl, (differ "d" "t" refl, tt)), ((differ "d" "l" refl, tt), (tt, tt))),
)

table-finds : Found "l" lint table
unfolding find String-discrete
table-finds = refl

table-IsLinked : IsLinked table.job_deps table
table-IsLinked = ground arith

table-IsOrdered : IsOrdered table.job_deps table
unfolding String-discrete
table-IsOrdered = (
  (
    (λ e. absurd (differ "b" "t" refl e)),
    (
      (λ e st. elim st [ ]),
      ((λ e. absurd (differ "l" "t" refl e)), ((λ e. absurd (differ "d" "t" refl e)), tt)),
    ),
  ),
  tt,
)

table-AllSound : AllSound table
table-AllSound = ground arith

run-AllSound_example : AllSound (run requests table)
run-AllSound_example = run-AllSound requests table table-IsUnique table-AllSound

run-final_example : Found "l" lint (run requests table)
run-final_example = run-final requests table "l" lint table-IsUnique table-finds tt

run-IsOrdered_example : IsOrdered table.job_deps (run requests table)
run-IsOrdered_example =
    run-IsOrdered table.job_deps requests table table-IsUnique table-IsLinked table-IsOrdered

abbrev state_in : String → Store → JobState
state_in id s = elim (get_job id s) [ ok j t ↦ j.state | err e t ↦ JobState.pending ]

abbrev attempts_in : String → Store → ℕ
attempts_in id s = elim (get_job id s) [ ok j t ↦ j.attempt | err e t ↦ 0 ]

claims_doc : attempts_in "d" (final (claim_job "d" "w" 50 table)) ≡ 1
unfolding claim_job get_job update_jobs find update select String-discrete JobState-discrete ◌>>=◌
    ℕ_discrete
claims_doc = refl

queues_test : state_in "t" (final (complete "b" 1 success table)) ≡ JobState.queued
unfolding complete get_job find ◌>>=◌ guard is_reportable tx String-discrete complete_job
    JobState-discrete finish_job update_jobs append_event insert_event advance list_jobs
    list_job_deps settle any select update final_state finish_run move next_state pass set_state
    state_at visit record_result enter finished is_terminal requeue_job transition_pending_job now
    null_str return throw get_run set_run_state update_runs RunState-discrete ℕ_discrete
queues_test = refl

claimed : claim_job "d" "w" 50 table ≡ ok (some 1) (final (claim_job "d" "w" 50 table))
unfolding claim_job get_job update_jobs find update select String-discrete JobState-discrete ◌>>=◌
    ℕ_discrete
claimed = refl

claim_job_once_example :
    let t = final (claim_job "d" "w" 50 table) in
    (u : Store) × (claim_job "d" "v" 60 t ≡ ok none u) × (u.jobs ≡ t.jobs)
claim_job_once_example = claim_job_once "d" "w" "v" 50 60 1 table _ claimed

abbrev batch : List LogChunk
batch = record { seq = 1; chunk = 7 ∷ 7 ∷ 7 ∷ [] } ∷ record { seq = 2; chunk = 8 ∷ 8 ∷ [] } ∷ []

final_state-verdict_example :
    final_state RunState.succeeded (("b", succeeded) ∷ ("l", JobState.failed) ∷ ("t", skipped) ∷ [])
    ≡ verdict (("b", succeeded) ∷ ("l", JobState.failed) ∷ ("t", skipped) ∷ [])
final_state-verdict_example =
    final_state-verdict (("b", succeeded) ∷ ("l", JobState.failed) ∷ ("t", skipped) ∷ [])

append_logs_capped_example :
    stored_bytes "b" 1 (final (append_logs 4 "b" 1 batch table)) ≤ max 4 (stored_bytes "b" 1 table)
append_logs_capped_example = append_logs_capped 4 "b" 1 batch table

abbrev none_yet : Progress
none_yet = record { total = 0; stored = 0; lost = false }

abbrev all_stored : Progress
all_stored = record { total = 4; stored = 4; lost = true }

abbrev after_batch : Store
after_batch = final (append_chunks 4 "b" 1 batch none_yet table)

stores_batch : append_chunks 4 "b" 1 batch none_yet table ≡ ok all_stored after_batch
unfolding append_chunks append_chunk insert_log_chunk any ◌>>=◌ return String-discrete ℕ_discrete
stores_batch = refl

append_chunks_again_example :
    append_chunks 4 "b" 1 batch none_yet after_batch ≡ ok none_yet after_batch
append_chunks_again_example =
    append_chunks_again 4 "b" 1 batch none_yet all_stored none_yet table after_batch stores_batch

abbrev arm_or_any : List (String × String)
arm_or_any = ("arch", "arm") ∷ ("gpu", "") ∷ []

abbrev arm_runner : List (String × String)
arm_runner = ("arch", "arm") ∷ []

-- The runner has no label gpu at all.
accepts_absent : labels_subset arm_or_any arm_runner ≡ true
unfolding labels_subset String-discrete
accepts_absent = refl

labels_subset-Accepts_example :
    (labels_subset arm_or_any arm_runner ≡ true) ↔ All (Accepts arm_runner) arm_or_any
labels_subset-Accepts_example = labels_subset-Accepts arm_or_any arm_runner

abbrev server : Scheduler
server = record {
  ttl = 30000;
  log_cap = 4;
  max_attempts = 3;
  monitor_each = 5;
  offline_ms = 30000;
  grace_ms = 30000;
  lease_grace_until = 0;
}

abbrev build_ref : JobRef
build_ref = record { job_id = "b"; attempt = 1 }

table-finds_build : Found "b" build table
unfolding find String-discrete
table-finds_build = refl

direct-Told_example :
    (t : Store) × (o : Order) × (k : Job) × (direct server "w" build_ref table
      ≡ ok (record { job_id = "b"; attempt = 1; directive = o }) t)
    × Found "b" k t
    × Told server "w" build_ref build 30000 o k
direct-Told_example = direct-Told server "w" build_ref build table table-IsUnique table-finds_build

cancels_test : state_in "t" (final (cancel_run "r" table)) ≡ JobState.cancelled
unfolding cancel_run cancel_live cancel_jobs cancel_one cancel_job request_job_cancel list_events
    get_job find ◌>>=◌ guard tx String-discrete JobState-discrete update_jobs append_event
    insert_event advance list_jobs list_job_deps settle any select update final_state finish_run
    move next_state pass set_state state_at visit enter finished is_terminal transition_pending_job
    now null_str return throw get_run set_run_state update_runs RunState-discrete ℕ_discrete
cancels_test = refl

cancel_run-IsCleared_example : Holds (λ _. IsCleared "r") (cancel_run "r" table)
unfolding any select
cancel_run-IsCleared_example = cancel_run-IsCleared "r" table table-IsUnique refl

named : let t : String = "r" in (t == "") ≡ false
unfolding String-discrete
named = refl

table-HasRun : HasRun "r" the_run table
unfolding find String-discrete
table-HasRun = refl

advance_returns_example : (t : Store) × (advance "r" table ≡ ok tt t)
advance_returns_example = advance_returns "r" the_run named table table-IsUnique table-HasRun
