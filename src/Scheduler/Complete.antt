-- ===== src/Scheduler/Complete.antt =====
-- Complete of internal/scheduler/scheduler.go.
use quarry.Base.{
  ℤ, ℕ, String, List, [], ◌∷◌, Option, none, some, Bool, true, false, ◌&&◌, ◌==◌, ℕ-eq, String-eq,
  ltb, if◌then◌else◌,
}
use quarry.Store.Types.{
  Job, JobState, JobState-eq, running, queued, FailureKind, lost_runner, other, CancelReason,
  Detail, num, text, code, kind,
}
use quarry.Store.Monad.{fenced, invalid, M, ◌>>=◌, ◌>>◌, return, throw, now, tx, int64, guard}
use quarry.Store.Jobs.{get_job, finish_job, requeue_job}
use quarry.Scheduler.Types.{retryable, is_terminal, finished, enter, event}
use quarry.Scheduler.Advance.{advance}

-- The strings that a runner may report: the two of the protocol, or any other.
pub data Status : Type 0 where
  succeeded failed : Status
  other_status : String → Status

pub record Result : Type 0 where
  pub status : Status
  pub failure_kind : FailureKind
  pub exit_code : Option ℤ
  pub error : String

-- The first `switch`: lost_runner is the server's own verdict, and no runner may report it.
unfoldable pub is_reportable : Status → FailureKind → Bool
is_reportable succeeded k = true
is_reportable failed lost_runner = false
is_reportable failed (other t) = false
is_reportable failed _ = true
is_reportable (other_status t) k = false

abbrev pub is_timeout : Option CancelReason → Bool
is_timeout (some CancelReason.timeout) = true
is_timeout _ = false

module _ (job : Job) (attempt : ℕ) (res : Result) where
  abbrev pub finish :
      JobState → Option FailureKind → String → String → List (String × Detail) → M (Unit {0})
  finish st k msg type detail = do
    done ← finish_job job.id attempt st k res.exit_code msg
    time ← now
    finished st (int64 job.started_at) time
    event job.run_id job.id type (("attempt", num attempt) ∷ detail)

  abbrev pub record_success : M (Unit {0})
  record_success = finish JobState.succeeded none "" "job.succeeded" []

  -- Who asked for the cancel decides the record.
  abbrev pub cancel_detail : FailureKind → String → List (String × Detail)
  cancel_detail k msg = ("failure_kind", kind k) ∷ ("error", text msg) ∷ []

  abbrev pub timeout_message : String
  timeout_message = "job timed out (server backstop)"

  abbrev pub record_cancel : M (Unit {0})
  record_cancel =
      if is_timeout job.cancel_reason
      then finish JobState.failed (some FailureKind.timeout) timeout_message "job.failed"
          (cancel_detail FailureKind.timeout timeout_message)
      else finish JobState.cancelled (some FailureKind.cancelled) res.error "job.cancelled"
          (cancel_detail FailureKind.cancelled res.error)

  abbrev pub may_retry : Bool
  may_retry =
      retryable res.failure_kind
      && (ltb attempt job.max_attempts && int64 job.cancel_requested_at == 0)

  abbrev pub record_failure : M (Unit {0})
  record_failure =
      if may_retry
      then (do
        done ← requeue_job job.id attempt res.error
        enter queued
        event job.run_id job.id "job.requeued" (
            ("attempt", num attempt)
            ∷ ("failure_kind", kind res.failure_kind)
            ∷ ("error", text res.error)
            ∷ []))
      else finish JobState.failed (some res.failure_kind) res.error "job.failed" (
          ("failure_kind", kind res.failure_kind)
          ∷ ("exit_code", code res.exit_code)
          ∷ ("error", text res.error)
          ∷ [])

  abbrev pub record_failed : FailureKind → M (Unit {0})
  record_failed FailureKind.cancelled = record_cancel
  record_failed _ = record_failure

  -- The second `switch`; a status that is neither was refused before the transaction.
  abbrev pub record_status : Status → M (Unit {0})
  record_status succeeded = record_success
  record_status _ = record_failed res.failure_kind

  unfoldable pub record_result : M (Unit {0})
  unfolding finished enter
  record_result = record_status res.status

  -- The fence, with the exception of a duplicate report.
  unfoldable pub complete_job : M Job
  unfolding record_result
  complete_job =
      if job.state == running && job.attempt == attempt
      then (do record_result; advance job.run_id; get_job job.id)
      else if job.attempt == attempt && is_terminal job.state
      then return job
      else throw fenced

unfoldable pub complete : String → ℕ → Result → M Job
complete id attempt res = do
  guard (is_reportable res.status res.failure_kind) (invalid "invalid status or failure_kind")
  tx (do job ← get_job id; complete_job job attempt res)
