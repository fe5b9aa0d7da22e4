-- ===== src/Scheduler/Verdict.antt =====
-- The final state of a run.
use quarry.Base.{
  String, [], ◌∷◌, Option, none, some, Bool, true, false, ◌≡◌, refl, arith, any, if◌then◌else◌,
  ◌==◌,
}
use quarry.Store.Types.{
  JobState, JobState-eq, pending, queued, running, succeeded, failed, cancelled, skipped, RunState,
  RunState-eq,
}
use quarry.Scheduler.Advance.{States, final_state}

abbrev pub is_active : String × JobState → Bool
is_active (id, pending) = true
is_active (id, queued) = true
is_active (id, running) = true
is_active (id, _) = false

abbrev pub is_failed : String × JobState → Bool
is_failed (id, st) = st == failed

abbrev pub is_cancelled : String × JobState → Bool
is_cancelled (id, st) = st == cancelled

-- What the run comes to, read off all jobs at once.
abbrev pub verdict : States → Option RunState
verdict states =
    if any is_active states
    then none
    else if any is_failed states
    then some RunState.failed
    else if any is_cancelled states
    then some RunState.cancelled
    else some RunState.succeeded

abbrev verdict_from : RunState → States → Option RunState
verdict_from RunState.failed states = if any is_active states then none else some RunState.failed
verdict_from RunState.cancelled states =
    if any is_active states
    then none
    else if any is_failed states
    then some RunState.failed
    else some RunState.cancelled
verdict_from _ states = verdict states

final_from_failed :
    (states : States) → final_state RunState.failed states ≡ verdict_from RunState.failed states
unfolding final_state any
final_from_failed [] = refl
final_from_failed ((id, pending) ∷ rest) = refl
final_from_failed ((id, queued) ∷ rest) = refl
final_from_failed ((id, running) ∷ rest) = refl
final_from_failed ((id, succeeded) ∷ rest) = final_from_failed rest
final_from_failed ((id, failed) ∷ rest) = final_from_failed rest
final_from_failed ((id, cancelled) ∷ rest) = ground (arith, final_from_failed rest)
final_from_failed ((id, skipped) ∷ rest) = final_from_failed rest

final_from_cancelled :
    (states : States)
    → final_state RunState.cancelled states ≡ verdict_from RunState.cancelled states
unfolding final_state any
final_from_cancelled [] = refl
final_from_cancelled ((id, pending) ∷ rest) = refl
final_from_cancelled ((id, queued) ∷ rest) = refl
final_from_cancelled ((id, running) ∷ rest) = refl
final_from_cancelled ((id, succeeded) ∷ rest) = ground (arith, final_from_cancelled rest)
final_from_cancelled ((id, failed) ∷ rest) = ground (arith, final_from_failed rest)
final_from_cancelled ((id, cancelled) ∷ rest) = ground (arith, final_from_cancelled rest)
final_from_cancelled ((id, skipped) ∷ rest) = ground (arith, final_from_cancelled rest)

-- A run stays open while a job can change. Otherwise it has failed if a job failed, else it is
-- cancelled if one was cancelled, else it has succeeded, in whatever order the jobs are visited.
pub final_state-verdict : (states : States) → final_state RunState.succeeded states ≡ verdict states
unfolding final_state any
final_state-verdict [] = refl
final_state-verdict ((id, pending) ∷ rest) = refl
final_state-verdict ((id, queued) ∷ rest) = refl
final_state-verdict ((id, running) ∷ rest) = refl
final_state-verdict ((id, succeeded) ∷ rest) = ground (arith, final_state-verdict rest)
final_state-verdict ((id, failed) ∷ rest) = ground (arith, final_from_failed rest)
final_state-verdict ((id, cancelled) ∷ rest) = ground (arith, final_from_cancelled rest)
final_state-verdict ((id, skipped) ∷ rest) = ground (arith, final_state-verdict rest)
