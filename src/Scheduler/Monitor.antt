-- ===== src/Scheduler/Monitor.antt =====
-- internal/scheduler/monitor.go: one pass of the lease monitor.
use quarry.Base.{
  ℕ, ◌+◌, ◌-◌, ◌/◌, String, List, [], ◌∷◌, Option, none, some, Bool, true, false, ◌&&◌, ◌==◌, ℕ-eq,
  String-eq, leb, ltb, if◌then◌else◌, length,
}
use Prim.Native.String.{◌++◌ as str_append}
use quarry.Store.Types.{
  Job, queued, failed, lost_runner, CancelReason, Detail, num, text, kind, reason,
}
use quarry.Store.Monad.{ok, M, ◌>>=◌, ◌>>◌, return, now, tx, int64, string_of}
use quarry.Store.Jobs.{
  list_expired_leases, list_running_jobs, requeue_job, finish_job, request_job_cancel,
}
use quarry.Store.Runners.{mark_runners_offline}
use quarry.Scheduler.Types.{
  Scheduler, Spec, job_spec, nanos_per_milli, retryable, finished, enter, event,
}
use quarry.Scheduler.Advance.{advance}

pub record TickReport : Type 0 where
  pub requeued : List String
  pub failed : List String
  pub timed_out : List String
  pub runners_offline : List String

abbrev pub lease_message : String → String
lease_message runner =
    if runner == ""
    then "lease expired"
    else str_append "lease expired (runner " (str_append runner ")")

abbrev pub lease_detail : Job → List (String × Detail)
lease_detail j =
    ("attempt", num j.attempt)
    ∷ ("failure_kind", kind lost_runner)
    ∷ ("runner_id", text (string_of j.runner_id))
    ∷ ("lease_expires_at", num (int64 j.lease_expires_at))
    ∷ []

abbrev pub can_requeue : Job → Bool
can_requeue j =
    retryable lost_runner && (ltb j.attempt j.max_attempts && int64 j.cancel_requested_at == 0)

-- `true`: the job went back to the queue; `false`: it failed.
unfoldable pub expire : ℕ → Job → M Bool
unfolding finished enter
expire time j =
    let msg = lease_message (string_of j.runner_id) in
    if can_requeue j
    then (do
      done ← requeue_job j.id j.attempt msg
      enter queued
      event j.run_id j.id "job.requeued" (lease_detail j)
      return true)
    else (do
      done ← finish_job j.id j.attempt failed (some lost_runner) none msg
      finished failed (int64 j.started_at) time
      event j.run_id j.id "job.failed" (lease_detail j)
      advance j.run_id
      return false)

-- The ids requeued and the ids failed.
unfoldable pub expire_all : ℕ → List Job → M (List String × List String)
expire_all time [] = return ([], [])
expire_all time (j ∷ js) = do
  back ← expire time j
  (requeued, lost) ← expire_all time js
  if back then return (j.id ∷ requeued, lost) else return (requeued, j.id ∷ lost)

-- After a start, leases get one full TTL before they expire.
abbrev pub expired_at : Scheduler → ℕ → M (List Job)
expired_at sched time =
    if leb sched.lease_grace_until time then list_expired_leases time else return []

abbrev pub count_expirations : ℕ → M (Unit {0})
count_expirations n s =
    let m = s.metrics in
    ok tt (record s { metrics = record m { lease_expirations = m.lease_expirations + n } })

module _ (decode : String → Option Spec) (sched : Scheduler) where
  abbrev pub is_overdue : ℕ → Spec → Job → Bool
  is_overdue time spec j =
      ltb 0 spec.timeout
      && (ltb 0 (int64 j.started_at)
          && ltb (int64 j.started_at + spec.timeout / nanos_per_milli + sched.grace_ms) time)

  unfoldable pub backstop : ℕ → Job → M Bool
  backstop time j = do
    spec ← job_spec decode j
    if is_overdue time spec j
        then (do
          asked ← request_job_cancel j.id CancelReason.timeout
          if asked
              then (do
                event j.run_id j.id "job.cancel_requested" (
                    ("attempt", num j.attempt)
                    ∷ ("runner_id", text (string_of j.runner_id))
                    ∷ ("reason", reason CancelReason.timeout)
                    ∷ ("timeout_ms", num (spec.timeout / nanos_per_milli))
                    ∷ ("started_at", num (int64 j.started_at))
                    ∷ [])
                return true)
              else return false)
        else return false

  unfoldable pub backstop_all : ℕ → List Job → M (List String)
  backstop_all time [] = return []
  backstop_all time (j ∷ js) = do
    asked ← backstop time j
    rest ← backstop_all time js
    if asked then return (j.id ∷ rest) else return rest

  unfoldable pub tick : M TickReport
  tick = tx (do
    time ← now
    expired ← expired_at sched time
    (requeued, lost) ← expire_all time expired
    live ← list_running_jobs
    timed_out ← backstop_all time live
    silent ← mark_runners_offline (time - sched.offline_ms)
    count_expirations (length expired)
    return (record {
      requeued = requeued;
      failed = lost;
      timed_out = timed_out;
      runners_offline = silent;
    }))
