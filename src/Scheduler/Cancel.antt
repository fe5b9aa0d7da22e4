-- ===== src/Scheduler/Cancel.antt =====
-- CancelRun of internal/scheduler/scheduler.go.
use quarry.Base.{String, List, [], ◌∷◌, Bool, ◌||◌, ◌==◌, String-eq, if◌then◌else◌, any}
use quarry.Store.Types.{
  Job, JobState, pending, queued, running, Run, RunState, RunState-eq, CancelReason, FailureKind,
  Event, num, text, kind, reason,
}
use quarry.Store.Monad.{run_finished, M, ◌>>=◌, ◌>>◌, return, tx, guard, string_of}
use quarry.Store.Jobs.{list_jobs, cancel_job, request_job_cancel}
use quarry.Store.Runs.{get_run}
use quarry.Store.Events.{list_events}
use quarry.Scheduler.Types.{enter, event}
use quarry.Scheduler.Advance.{advance}

abbrev pub cancel_unstarted : String → Job → M (Unit {0})
cancel_unstarted run_id j = do
  done ← cancel_job j.id "cancelled by user"
  if done
      then (do
        enter JobState.cancelled
        event run_id j.id "job.cancelled"
            (("attempt", num j.attempt) ∷ ("failure_kind", kind FailureKind.cancelled) ∷ []))
      else return tt

abbrev pub cancel_running : String → Job → M (Unit {0})
cancel_running run_id j = do
  done ← request_job_cancel j.id CancelReason.user
  if done
      then event run_id j.id "job.cancel_requested" (
          ("attempt", num j.attempt)
          ∷ ("runner_id", text (string_of j.runner_id))
          ∷ ("reason", reason CancelReason.user)
          ∷ [])
      else return tt

abbrev pub cancel_by_state : String → Job → JobState → M (Unit {0})
cancel_by_state run_id j pending = cancel_unstarted run_id j
cancel_by_state run_id j queued = cancel_unstarted run_id j
cancel_by_state run_id j running = cancel_running run_id j
cancel_by_state run_id j _ = return tt

unfoldable pub cancel_one : String → Job → M (Unit {0})
unfolding enter
cancel_one run_id j = cancel_by_state run_id j j.state

unfoldable pub cancel_jobs : String → List Job → M (Unit {0})
cancel_jobs run_id [] = return tt
cancel_jobs run_id (j ∷ js) = do cancel_one run_id j; cancel_jobs run_id js

abbrev pub is_cancel_request : Event → Bool
is_cancel_request e = e.type == "run.cancel_requested"

unfoldable pub cancel_live : String → Run → M Run
cancel_live run_id run = do
  events ← list_events run_id 0 0
  if any is_cancel_request events then return run else (do
    jobs ← list_jobs run_id
    cancel_jobs run_id jobs
    event run_id "" "run.cancel_requested" []
    advance run_id
    get_run run_id)

unfoldable pub cancel_run : String → M Run
unfolding cancel_live
cancel_run run_id = tx (do
  run ← get_run run_id
  guard (run.state == RunState.pending || run.state == RunState.running) run_finished
  cancel_live run_id run)
