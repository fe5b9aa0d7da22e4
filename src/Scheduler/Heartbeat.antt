-- ===== src/Scheduler/Heartbeat.antt =====
-- Heartbeat of internal/scheduler/scheduler.go.
use quarry.Base.{ℕ, ◌+◌, String, List, [], ◌∷◌, not, ◌==◌, ℕ-eq, String-eq, if◌then◌else◌}
use quarry.Store.Monad.{required, M, ◌>>=◌, ◌>>◌, return, now, guard, tx, int64}
use quarry.Store.Jobs.{extend_lease, get_job}
use quarry.Store.Runners.{touch_runner}
use quarry.Scheduler.Types.{Scheduler}

pub record JobRef : Type 0 where
  pub job_id : String
  pub attempt : ℕ

pub data Order : Type 0 where
  continue cancel abort : Order

pub record Directive : Type 0 where
  pub job_id : String
  pub attempt : ℕ
  pub directive : Order

abbrev directed : JobRef → Order → Directive
directed j o = record { job_id = j.job_id; attempt = j.attempt; directive = o }

module _ (sched : Scheduler) (runner_id : String) where
  unfoldable pub direct : JobRef → M Directive
  direct ref = do
    time ← now
    held ← extend_lease ref.job_id ref.attempt runner_id (time + sched.ttl)
    if held
        then (do
          job ← get_job ref.job_id
          return (directed ref (if int64 job.cancel_requested_at == 0 then continue else cancel)))
        else return (directed ref abort)

  unfoldable pub direct_all : List JobRef → M (List Directive)
  unfolding direct
  direct_all [] = return []
  direct_all (ref ∷ refs) = do d ← direct ref; ds ← direct_all refs; return (d ∷ ds)

  unfoldable pub heartbeat : List JobRef → M (List Directive)
  unfolding direct_all
  heartbeat refs = do
    guard (not (runner_id == "")) (required "runner id is required")
    tx (do touch_runner runner_id; direct_all refs)
