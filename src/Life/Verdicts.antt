-- ===== src/Life/Verdicts.antt =====
-- Complete and CancelRun move rows along the job state machine only.
use quarry.Base.{
  ℕ, String, List, [], ◌∷◌, Option, ◌≡◌, arith, ◌==◌, ℕ-eq, ◌&&◌, Bool-cases, inl, inr, any,
}
use quarry.Store.Types.{
  Job, JobState, JobState-eq, Run, FailureKind, Detail, queued, running, pending,
}
use quarry.Store.Monad.{Store, ◌>>=◌}
use quarry.Store.Rules.{
  Ensures-bind, Ensures-weaken, Keeps, Keeps-bind, Keeps-guard, Keeps-if, Keeps-return, Keeps-throw,
  Always, Always-bind, Always-guard, Always-tx,
}
use quarry.Scheduler.Types.{enter}
use quarry.Scheduler.Advance.{advance}
use quarry.Store.Jobs.{get_job}
use quarry.Scheduler.Complete.{
  Status, Result, finish, record_cancel, record_failure, record_failed, record_status,
  record_result, may_retry, complete_job, complete, is_timeout,
}
use quarry.Scheduler.Cancel.{
  cancel_unstarted, cancel_running, cancel_by_state, cancel_one, cancel_jobs, cancel_live,
  cancel_run, is_cancel_request,
}
use quarry.Life.Move.{Ends, Move, IsVerdict, succeeded_verdict, failed_verdict, cancelled_verdict}
use quarry.Life.Stable.{
  IsStable, IsStable-Ends, IsStable-Settles, IsStable-IsTimeless, Both, IsStable-Both, now-Keeps,
}
use quarry.Life.Quiet.{
  get_job-Keeps, get_job-Ensures, get_run-Keeps, append_event-Keeps, enter-Keeps, finished-Keeps,
  list_jobs-Keeps, list_events-Keeps,
}
use quarry.Life.Advancing.{advance-Keeps}
use quarry.Life.Unique.{IsUnique, Snapshot, Snapshot-stable, Found-Snapshot}
use quarry.Life.Writes.{
  finish_job-Keeps, requeue_job-Keeps, cancel_job-Keeps, request_job_cancel-Keeps,
}

-- The writes about the attempt of a job that was read, while its row is still as it was read.
module _ {P : Store → Type 0} (c : IsStable Ends P) (unique : (s : Store) → P s → IsUnique s)
    (job : Job) (res : Result) (snap : (s : Store) → P s → Snapshot job s) where
  finish-Keeps :
      (st : JobState) (kind : Option FailureKind) (msg type : String)
      (detail : List (String × Detail))
      → IsVerdict st
      → Keeps P (finish job job.attempt res st kind msg type detail)
  finish-Keeps st kind msg type detail v =
      Keeps-bind _ _ (finish_job-Keeps c job.id job.attempt st kind _ msg v) λ _.
        Keeps-bind _ _ (now-Keeps c)
          λ time. Keeps-bind _ _ (finished-Keeps c st _ time) λ _. append_event-Keeps c _ _ _ _

  record_cancel-Keeps : Keeps P (record_cancel job job.attempt res)
  record_cancel-Keeps =
      Keeps-if (is_timeout job.cancel_reason) _ _ (finish-Keeps _ _ _ _ _ failed_verdict)
        (finish-Keeps _ _ _ _ _ cancelled_verdict)

  record_failure-Keeps : Keeps P (record_failure job job.attempt res)
  record_failure-Keeps = elim (Bool-cases (may_retry job job.attempt res)) [
    | inl e ↦ rw e (
        Keeps-bind _ _
          (requeue_job-Keeps c job res.error (ground (arith, e)) (ground (arith, e)) snap)
          λ _. Keeps-bind _ _ (enter-Keeps c queued) λ _. append_event-Keeps c _ _ _ _)
    | inr e ↦ rw e (finish-Keeps _ _ _ _ _ failed_verdict)
  ]

  record_failed-Keeps : (k : FailureKind) → Keeps P (record_failed job job.attempt res k)
  record_failed-Keeps FailureKind.cancelled = record_cancel-Keeps
  record_failed-Keeps _ = record_failure-Keeps

  record_status-Keeps : (st : Status) → Keeps P (record_status job job.attempt res st)
  record_status-Keeps Status.succeeded = finish-Keeps _ _ _ _ _ succeeded_verdict
  record_status-Keeps _ = record_failed-Keeps res.failure_kind

  record_result-Keeps : Keeps P (record_result job job.attempt res)
  unfolding record_result
  record_result-Keeps = record_status-Keeps res.status

  settled-Keeps :
      Keeps P
        (record_result job job.attempt res >>= λ _. advance job.run_id >>= λ _. get_job job.id)
  settled-Keeps = Keeps-bind _ _ record_result-Keeps λ _.
      Keeps-bind _ _ (advance-Keeps (IsStable-Settles c) unique job.run_id)
        λ _. get_job-Keeps P job.id

module _ {P : Store → Type 0} (c : IsStable Move P) (unique : (s : Store) → P s → IsUnique s) where
  -- What holds once the job was read.
  abbrev Read : Job → Store → Type 0
  Read job = Both P (Snapshot job)

  complete_job-Keeps :
      (job : Job) (attempt : ℕ) (res : Result) → Keeps (Read job) (complete_job job attempt res)
  unfolding complete_job
  complete_job-Keeps job attempt res =
      elim (Bool-cases (job.state == running && job.attempt == attempt)) [
        | inl e ↦
            let same : job.attempt ≡ attempt = ground (arith, e) in
            rw (e, ← same)
              (settled-Keeps (IsStable-Both (IsStable-Ends c) (Snapshot-stable job))
                (λ s p. unique s p.0) job res (λ s p. p.1))
        | inr e ↦ rw e (Keeps-if _ _ _ (Keeps-return job) (Keeps-throw _))
      ]

  pub complete-Keeps :
      (id : String) (attempt : ℕ) (res : Result) → Always P (complete id attempt res)
  unfolding complete
  complete-Keeps id attempt res = Always-bind _ _ (Always-guard _ _) λ _.
      Always-tx _ (IsStable-IsTimeless c) (
        Ensures-bind Read _ _
          (Ensures-weaken _ (λ s p. p)
            (λ job s q. (q.0, (Found-Snapshot id job s (unique s q.0) q.1).0))
            (get_job-Ensures P id))
          λ job. Ensures-weaken _ (λ s p. p) (λ j s q. q.0) (complete_job-Keeps job attempt res))

module _ {P : Store → Type 0} (c : IsStable Move P) (unique : (s : Store) → P s → IsUnique s) where
  cancel_unstarted-Keeps : (run_id : String) (j : Job) → Keeps P (cancel_unstarted run_id j)
  unfolding enter
  cancel_unstarted-Keeps run_id j = Keeps-bind _ _ (cancel_job-Keeps c j.id _) λ done.
      Keeps-if done _ _ (Keeps-bind _ _ (enter-Keeps c _) λ _. append_event-Keeps c _ _ _ _)
        (Keeps-return tt)

  cancel_running-Keeps : (run_id : String) (j : Job) → Keeps P (cancel_running run_id j)
  cancel_running-Keeps run_id j =
      Keeps-bind _ _ (request_job_cancel-Keeps c j.id _)
        λ done. Keeps-if done _ _ (append_event-Keeps c _ _ _ _) (Keeps-return tt)

  cancel_by_state-Keeps :
      (run_id : String) (j : Job) (st : JobState) → Keeps P (cancel_by_state run_id j st)
  cancel_by_state-Keeps run_id j pending = cancel_unstarted-Keeps run_id j
  cancel_by_state-Keeps run_id j queued = cancel_unstarted-Keeps run_id j
  cancel_by_state-Keeps run_id j running = cancel_running-Keeps run_id j
  cancel_by_state-Keeps run_id j _ = Keeps-return tt

  cancel_jobs-Keeps : (run_id : String) (js : List Job) → Keeps P (cancel_jobs run_id js)
  unfolding cancel_jobs cancel_one
  cancel_jobs-Keeps run_id [] = Keeps-return tt
  cancel_jobs-Keeps run_id (j ∷ js) =
      Keeps-bind _ _ (cancel_by_state-Keeps run_id j j.state) λ _. cancel_jobs-Keeps run_id js

  cancel_live-Keeps : (run_id : String) (run : Run) → Keeps P (cancel_live run_id run)
  unfolding cancel_live
  cancel_live-Keeps run_id run = Keeps-bind _ _ (list_events-Keeps P run_id 0 0) λ events.
      Keeps-if (any is_cancel_request events) _ _ (Keeps-return run) (
        Keeps-bind _ _ (list_jobs-Keeps P run_id) λ jobs.
          Keeps-bind _ _ (cancel_jobs-Keeps run_id jobs) λ _.
            Keeps-bind _ _ (append_event-Keeps c _ _ _ _) λ _.
              Keeps-bind _ _ (advance-Keeps (IsStable-Settles (IsStable-Ends c)) unique run_id)
                λ _. get_run-Keeps P run_id)

  pub cancel_run-Keeps : (run_id : String) → Always P (cancel_run run_id)
  unfolding cancel_run
  cancel_run-Keeps run_id = Always-tx _ (IsStable-IsTimeless c) (
      Keeps-bind _ _ (get_run-Keeps P run_id)
        λ run. Keeps-bind _ _ (Keeps-guard _ _) λ _. cancel_live-Keeps run_id run)
