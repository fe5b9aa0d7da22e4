-- ===== src/Scheduler/Claim.antt =====
-- Claim of internal/scheduler/scheduler.go.
use quarry.Base.{
  ℕ, ◌+◌, String, List, [], ◌∷◌, ◌++◌, Option, none, some, not, ◌==◌, ℕ-eq, String-eq,
  if◌then◌else◌,
}
use quarry.Store.Types.{Job, JobState, RunState, Labels, num, text}
use quarry.Store.Monad.{required, ok, M, ◌>>=◌, ◌>>◌, return, now, guard, tx, int64}
use quarry.Store.Jobs.{list_queued_jobs, claim_job, get_job}
use quarry.Store.Runs.{set_run_state}
use quarry.Store.Runners.{NewRunner, upsert_runner}
use quarry.Scheduler.Types.{Scheduler, Spec, job_spec, labels_subset, enter, event}

pub record RunnerInfo : Type 0 where
  pub id : String
  pub name : String
  pub labels : Labels
  pub capacity : ℕ
  pub version : String

abbrev pub as_runner : RunnerInfo → NewRunner
as_runner r = record {
  id = r.id;
  name = if r.name == "" then r.id else r.name;
  labels = r.labels;
  capacity = r.capacity;
  state = none;
  version = r.version;
}

abbrev pub start_run : String → M (Unit {0})
start_run run_id = do
  started ← set_run_state run_id RunState.pending RunState.running
  if started then event run_id "" "run.started" [] else return tt

-- The job was claimed: the events, and the row as it stands now.
unfoldable pub report_claim : RunnerInfo → Job → ℕ → M (Option Job)
report_claim r job attempt = do
  start_run job.run_id
  event job.run_id job.id "job.claimed" (("runner_id", text r.id) ∷ ("attempt", num attempt) ∷ [])
  claimed ← get_job job.id
  return (some claimed)

abbrev pub observe_claim : Job → M (Unit {0})
observe_claim j s =
    let m = s.metrics in
    ok tt (record s {
      metrics = record m { claims = m.claims ++ (j.queued_at, int64 j.started_at) ∷ [] };
    })

module _ (decode : String → Option Spec) (sched : Scheduler) (r : RunnerInfo) where
  -- The loop over the queued jobs, oldest first.
  unfoldable pub claim_from : List Job → M (Option Job)
  claim_from [] = return none
  claim_from (job ∷ rest) =
      let next = claim_from rest in
      do
        spec ← job_spec decode job
        if labels_subset spec.labels r.labels
            then (do
              time ← now
              claimed ← claim_job job.id r.id (time + sched.ttl)
              elim claimed [ none ↦ next | some attempt ↦ report_claim r job attempt ])
            else next

  unfoldable pub claim_tx : M (Option Job)
  unfolding claim_from
  claim_tx = tx (do upsert_runner (as_runner r); jobs ← list_queued_jobs; claim_from jobs)

  unfoldable pub claim : M (Option Job)
  unfolding claim_tx enter
  claim = do
    guard (not (r.id == "")) (required "runner id is required")
    claimed ← claim_tx
    elim claimed [
      | none ↦ return none
      | some j ↦ do enter JobState.running; observe_claim j; return (some j)
    ]
