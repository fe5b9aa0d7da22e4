-- ===== src/Life/Writes.antt =====
-- The guarded writes of internal/store/jobs.go move rows along the job state machine, and so keep each
-- property that it keeps.
use quarry.Base.{ℤ, ℕ, ◌<◌, String, Option, true, ◌≡◌, arith, All-of, All-map, ℕ-eq}
use quarry.Store.Types.{Job, JobState, running, FailureKind, CancelReason}
use quarry.Store.Monad.{Store, int64, null_str}
use quarry.Store.Rules.{Keeps, Keeps-bind, Keeps-if, Keeps-return}
use quarry.Store.Jobs
use quarry.Store.Jobs.{
  is_queued, is_running_at, is_held, is_unstarted, is_uncancelled, to_running, with_lease,
  to_finished, claim_job, extend_lease, finish_job, requeue_job, cancel_job, request_job_cancel,
  list_expired_leases, is_expired,
}
use quarry.Life.Move.{Ends, Move, IsVerdict, finish, requeue, claim, extend, cancel, ask}
use quarry.Life.Stable.{IsStable, now-Keeps, update_jobs-Keeps}
use quarry.Life.Quiet.{get_job-Keeps}
use quarry.Life.Unique.{Snapshot, IsLike}

running_at_state : (id : String) (n : ℕ) (j : Job) → is_running_at id n j ≡ true → j.state ≡ running
running_at_state id n j h = ground arith

module _ {P : Store → Type 0} (c : IsStable Ends P) where
  pub finish_job-Keeps :
      (id : String) (attempt : ℕ) (st : JobState) (kind : Option FailureKind) (code : Option ℤ)
      (msg : String)
      → IsVerdict st
      → Keeps P (finish_job id attempt st kind code msg)
  unfolding finish_job
  finish_job-Keeps id attempt st kind code msg v = Keeps-bind _ _ (now-Keeps c) λ time.
      update_jobs-Keeps c _ _
        λ s _. All-of s.jobs λ j h. finish st kind code _ time v (running_at_state id attempt j h)

  -- The row that was read decides whether the row in the table may be retried.
  pub requeue_job-Keeps :
      (job : Job) (msg : String)
      → job.attempt < job.max_attempts
      → int64 job.cancel_requested_at ≡ 0
      → ((s : Store) → P s → Snapshot job s)
      → Keeps P (requeue_job job.id job.attempt msg)
  unfolding requeue_job
  requeue_job-Keeps job msg more calm snap = Keeps-bind _ _ (now-Keeps c) λ time.
      update_jobs-Keeps c _ _
        λ s p. All-map _ _ s.jobs (λ j like t. retry s time j like t) (snap s p)
    where
      retry :
          (s : Store) (time : ℕ) (j : Job)
          → (j.id ≡ job.id → IsLike job j)
          → is_running_at job.id job.attempt j ≡ true
          → Ends s j (Jobs.to_requeued (null_str msg) time j)
      retry s time j like t =
          let same : IsLike job j = like (ground (arith, t)) in
          requeue _ time (running_at_state job.id job.attempt j t) (ground (arith, same, t))
            (ground (arith, same, t))

module _ {P : Store → Type 0} (c : IsStable Move P) where
  pub claim_job-Keeps : (id runner : String) (lease : ℕ) → Keeps P (claim_job id runner lease)
  unfolding claim_job
  claim_job-Keeps id runner lease = Keeps-bind _ _ (now-Keeps c) λ time.
      Keeps-bind _ _
        (update_jobs-Keeps c _ _
          λ s _. All-of s.jobs λ j h. claim runner lease time (ground (arith, h)))
        λ won.
          Keeps-if won _ _ (Keeps-bind _ _ (get_job-Keeps P id) λ j. Keeps-return _)
            (Keeps-return _)

  pub extend_lease-Keeps :
      (id : String) (attempt : ℕ) (runner : String) (lease : ℕ)
      → Keeps P (extend_lease id attempt runner lease)
  unfolding extend_lease
  extend_lease-Keeps id attempt runner lease =
      update_jobs-Keeps c _ _ λ s _. All-of s.jobs λ j h. extend lease (ground (arith, h))

  pub cancel_job-Keeps : (id msg : String) → Keeps P (cancel_job id msg)
  unfolding cancel_job
  cancel_job-Keeps id msg =
      Keeps-bind _ _ (now-Keeps c) λ time.
        update_jobs-Keeps c _ _ λ s _. All-of s.jobs λ j h. cancel _ time (ground (arith, h))

  pub request_job_cancel-Keeps :
      (id : String) (why : CancelReason) → Keeps P (request_job_cancel id why)
  unfolding request_job_cancel
  request_job_cancel-Keeps id why = Keeps-bind _ _ (now-Keeps c) λ time.
      update_jobs-Keeps c _ _
        λ s _. All-of s.jobs λ j h. ask why time (ground (arith, h)) (ground (arith, h))
