-- ===== src/Life/Requests.antt =====
-- Claim and Heartbeat move rows along the job state machine only, and so keep each property that the
-- machine keeps.
use quarry.Base.{ℕ, String, List, [], ◌∷◌, Option, none, some, refl}
use quarry.Store.Types.{Job, JobState}
use quarry.Store.Monad.{Store, ◌>>=◌, return}
use quarry.Store.Rules.{
  Keeps, Keeps-bind, Keeps-if, Keeps-return, Always, Always-bind, Always-return, Always-guard,
  Always-tx,
}
use quarry.Scheduler.Types.{Scheduler, Spec, enter}
use quarry.Scheduler.Claim.{
  RunnerInfo, start_run, report_claim, observe_claim, claim_from, claim_tx, claim,
}
use quarry.Scheduler.Heartbeat.{JobRef, direct, direct_all, heartbeat}
use quarry.Life.Move.{Move}
use quarry.Life.Stable.{IsStable, IsStable-IsTimeless, now-Keeps}
use quarry.Life.Quiet.{
  get_job-Keeps, append_event-Keeps, set_run_state-Keeps, upsert_runner-Keeps, touch_runner-Keeps,
  list_queued_jobs-Keeps, job_spec-Keeps,
}
use quarry.Life.Writes.{claim_job-Keeps, extend_lease-Keeps}

module _ {P : Store → Type 0} (c : IsStable Move P) where
  start_run-Keeps : (run_id : String) → Keeps P (start_run run_id)
  start_run-Keeps run_id =
      Keeps-bind _ _ (set_run_state-Keeps c run_id _ _)
        λ started. Keeps-if started _ _ (append_event-Keeps c run_id "" _ _) (Keeps-return tt)

  report_claim-Keeps : (r : RunnerInfo) (job : Job) (n : ℕ) → Keeps P (report_claim r job n)
  unfolding report_claim
  report_claim-Keeps r job n = Keeps-bind _ _ (start_run-Keeps job.run_id) λ _.
      Keeps-bind _ _ (append_event-Keeps c _ _ _ _)
        λ _. Keeps-bind _ _ (get_job-Keeps P job.id) λ _. Keeps-return _

  module _ (decode : String → Option Spec) (sched : Scheduler) (r : RunnerInfo) where
    claim_from-Keeps : (jobs : List Job) → Keeps P (claim_from decode sched r jobs)
    unfolding claim_from
    claim_from-Keeps [] = Keeps-return _
    claim_from-Keeps (job ∷ rest) = Keeps-bind _ _ (job_spec-Keeps P decode job) λ spec.
        Keeps-if _ _ _
          (Keeps-bind _ _ (now-Keeps c)
            λ time. Keeps-bind _ _ (claim_job-Keeps c job.id r.id _) (go (claim_from-Keeps rest)))
          (claim_from-Keeps rest)
      where
        go :
            Keeps P (claim_from decode sched r rest)
            → (o : Option ℕ)
            → Keeps P (elim o [
              | none ↦ claim_from decode sched r rest
              | some attempt ↦ report_claim r job attempt
            ])
        go k none = k
        go k (some attempt) = report_claim-Keeps r job attempt

    claim_tx-Keeps : Always P (claim_tx decode sched r)
    unfolding claim_tx
    claim_tx-Keeps = Always-tx _ (IsStable-IsTimeless c) (
        Keeps-bind _ _ (upsert_runner-Keeps c _)
          λ _. Keeps-bind _ _ (list_queued_jobs-Keeps P) claim_from-Keeps)

    enter_claim :
        (o : Option Job)
        → Always {A = Option Job} P (elim o [
          | none ↦ return none
          | some j ↦ enter JobState.running >>= λ _. observe_claim j >>= λ _. return (some j)
        ])
    unfolding enter
    enter_claim none = Always-return none
    enter_claim (some j) =
        Always-bind _ _ (record { at = λ s. c.quiet s _ refl refl })
          λ _. Always-bind _ _ (record { at = λ s. c.quiet s _ refl refl }) λ _. Always-return _

    pub claim-Keeps : Always P (claim decode sched r)
    unfolding claim
    claim-Keeps = Always-bind _ _ (Always-guard _ _) λ _. Always-bind _ _ claim_tx-Keeps enter_claim

  module _ (sched : Scheduler) (runner_id : String) where
    direct-Keeps : (ref : JobRef) → Keeps P (direct sched runner_id ref)
    unfolding direct
    direct-Keeps ref = Keeps-bind _ _ (now-Keeps c) λ time.
        Keeps-bind _ _ (extend_lease-Keeps c _ _ _ _) λ held.
          Keeps-if held _ _ (Keeps-bind _ _ (get_job-Keeps P ref.job_id) λ j. Keeps-return _)
            (Keeps-return _)

    direct_all-Keeps : (refs : List JobRef) → Keeps P (direct_all sched runner_id refs)
    unfolding direct_all
    direct_all-Keeps [] = Keeps-return _
    direct_all-Keeps (ref ∷ refs) =
        Keeps-bind _ _ (direct-Keeps ref)
          λ d. Keeps-bind _ _ (direct_all-Keeps refs) λ ds. Keeps-return _

    pub heartbeat-Keeps : (refs : List JobRef) → Always P (heartbeat sched runner_id refs)
    unfolding heartbeat
    heartbeat-Keeps refs = Always-bind _ _ (Always-guard _ _) λ _.
        Always-tx _ (IsStable-IsTimeless c)
          (Keeps-bind _ _ (touch_runner-Keeps c runner_id) λ _. direct_all-Keeps refs)
