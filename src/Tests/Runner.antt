-- ===== src/Tests/Runner.antt =====
-- Runs of the runner's code, and the results at them.
use native.Mathlib.Decide.{ℕ_discrete}
use quarry.Base.{
  ◌*◌, List, [], ◌∷◌, ◌++◌, none, some, true, false, ◌≡◌, ◌⊎◌, refl, arith, String-discrete,
  decimal, digits, pos, any, find, select, update,
}
use quarry.Store.Types.{Job, JobState-discrete, RunState-discrete, FailureKind}
use quarry.Store.Monad.{
  Outcome, ok, err, fenced, final, ◌>>=◌, guard, tx, now, null_str, return, throw,
}
use quarry.Store.Jobs.{
  get_job, update_jobs, finish_job, list_jobs, requeue_job, transition_pending_job,
}
use quarry.Store.Events.{append_event, insert_event}
use quarry.Store.Runs.{list_job_deps, get_run, set_run_state, update_runs}
use quarry.Scheduler.Types.{enter, finished, is_terminal}
use quarry.Scheduler.Advance.{
  advance, settle, final_state, finish_run, move, next_state, pass, set_state, state_at, visit,
}
use quarry.Scheduler.Complete.{is_reportable, complete_job, record_result, complete, Status}
use quarry.Scheduler.Heartbeat.{JobRef, Directive, Order}
use quarry.Life.Again.{complete-again}
use quarry.Agent.Client.{
  Answer, unreachable, answered, Posted, Turn, is_connection, post_once, reconnect, post,
  complete_with_retry, millisecond,
}
use quarry.Agent.Retry.{reconnect_returns}
use quarry.Agent.Waits.{base_delay, waits_from, failures, post-waits_from}
use quarry.Agent.Attempt.{
  timed_out, exited, uploaded, superseded, Work, enter as enters, execute, leave, close,
  run_attempt, cause, is_aborted, is_shut, to_report, execution, make_dir, send, remove_dir,
}
use quarry.Agent.Discipline.{Follows}
use quarry.Agent.Protocol.{run_attempt-Follows}
use quarry.Agent.Outcomes.{is_success, has_succeeded, run_attempt-has_succeeded}
use quarry.Agent.Slots.{
  Step, acquire, claim_job, claim_empty, register_attempt, directed, leave_attempt, release, new,
  run_on,
}
use quarry.Agent.Capacity.{IsBalanced, Then, run_on-IsBalanced}
use quarry.Agent.Delivery.{
  Fate, dropped, mute, replied, turns_of, Delivered, complete_with_retry-Delivered,
}
use quarry.Tests.{table, build, success, table-IsUnique, differ}

abbrev at_turn : Answer → Turn
at_turn a = record { ended = false; answer = a; interrupted = false }

abbrev accepts : Turn
accepts = at_turn (answered 200 true true)

abbrev busy : Turn
busy = at_turn (answered 503 true true)

abbrev outage : List Turn
outage = at_turn unreachable ∷ busy ∷ at_turn unreachable ∷ accepts ∷ []

reconnect_returns_example :
    (r : Posted) × ((reconnect post_once 1 outage).outcome ≡ some r) × (is_connection r ≡ false)
unfolding any post_once ℕ_discrete
reconnect_returns_example = reconnect_returns post_once 1 outage refl

abbrev down : List Turn
down = at_turn unreachable ∷ at_turn unreachable ∷ at_turn unreachable ∷ []

-- Four seconds, eight, and from then on ten.
waits_down : (post (4000 * millisecond) down).waits ≡ 4000000000 ∷ 8000000000 ∷ 10000000000 ∷ []
unfolding post reconnect post_once ℕ_discrete
waits_down = refl

post-waits_from_example : (post 0 outage).waits ≡ waits_from (base_delay 0) 0 (failures outage)
post-waits_from_example = post-waits_from 0 outage

-- A job with artifacts that exits with code 0; its upload meets the fence.
abbrev overtaken : Work
overtaken = record {
  spec_error = none;
  declares = true;
  dir_error = none;
  timeout = 0;
  ran = exited (pos 0) false;
  upload = superseded "stale";
  ends = timed_out ∷ [];
  shut_later = false;
}

runs_overtaken :
    run_attempt overtaken
    ≡ enters ∷ make_dir ∷ execute ∷ send ∷ close true ∷ remove_dir ∷ leave ∷ []
unfolding run_attempt execution to_report is_aborted cause find is_shut any
runs_overtaken = refl

abbrev crashed : Work
crashed = record overtaken { declares = false; ran = exited (pos 137) true; timeout = 5; ends = [] }

says_out_of_memory :
    to_report crashed
    ≡ some (record {
      status = Status.failed;
      failure_kind = FailureKind.exit_code;
      exit_code = some (pos 137);
      error = "exit code 137 (out of memory)";
    })
unfolding to_report is_aborted cause find is_shut any decimal digits ℕ_discrete
says_out_of_memory = refl

run_attempt-Follows_example : Follows overtaken
run_attempt-Follows_example = run_attempt-Follows overtaken

run_attempt-has_succeeded_example :
    any is_success (run_attempt (record overtaken { upload = uploaded }))
    ≡ has_succeeded (record overtaken { upload = uploaded })
run_attempt-has_succeeded_example =
    run_attempt-has_succeeded (record overtaken { upload = uploaded })

abbrev key : JobRef
key = record { job_id = "b"; attempt = 1 }

abbrev stop_order : Directive
stop_order = record { job_id = "b"; attempt = 1; directive = Order.cancel }

-- One slot: the second acquire waits for the release.
abbrev shift : List Step
shift =
    acquire
    ∷ claim_job key
    ∷ register_attempt 0
    ∷ directed stop_order
    ∷ leave_attempt 0
    ∷ release 0
    ∷ acquire
    ∷ claim_empty
    ∷ []

run_on-IsBalanced_example : Then IsBalanced (run_on shift (some (new 1)))
run_on-IsBalanced_example = run_on-IsBalanced 1 shift

abbrev job_in : Outcome Job → Job
job_in (ok k s) = k
job_in (err e s) = build

abbrev built : Job
built = job_in (complete "b" 1 success table)

takes_report : complete "b" 1 success table ≡ ok built (final (complete "b" 1 success table))
unfolding complete get_job find ◌>>=◌ guard is_reportable tx String-discrete complete_job
    JobState-discrete finish_job update_jobs append_event insert_event advance list_jobs
    list_job_deps settle any select update final_state finish_run move next_state pass set_state
    state_at visit record_result enter finished is_terminal requeue_job transition_pending_job now
    null_str return throw get_run set_run_state update_runs RunState-discrete ℕ_discrete
takes_report = refl

complete-again_example :
    let t = final (complete "b" 1 success table) in
    (complete "b" 1 success t ≡ ok built t) ⊎ (complete "b" 1 success t ≡ err fenced t)
complete-again_example = complete-again "b" 1 success built table _ table-IsUnique takes_report

-- The first request is lost, and of the second the reply.
abbrev fates : List Fate
fates = dropped ∷ mute ∷ []

complete_with_retry-Delivered_example :
    Delivered "b" "w" 1 success fates
      (replied ∷ [])
      table
      (final (complete "b" 1 success table))
      (complete_with_retry 1 8 (turns_of "b" "w" 1 success (fates ++ replied ∷ replied ∷ []) table))
unfolding String-discrete
complete_with_retry-Delivered_example =
    complete_with_retry-Delivered "b" "w" 1 success built fates (replied ∷ []) table _ 1 7
      table-IsUnique (λ e. ground (arith, e)) (differ "w" "" refl) takes_report (tt, (tt, tt))
