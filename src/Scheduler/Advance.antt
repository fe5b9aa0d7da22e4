-- ===== src/Scheduler/Advance.antt =====
-- advance of internal/scheduler/scheduler.go: moving the DAG of a run forward, and finishing the run.
use quarry.Base.{
  ℕ, zero, suc, String, List, [], ◌∷◌, Option, none, some, Bool, true, false, ◌||◌, ◌==◌, String-eq,
  if◌then◌else◌, length, select, any, map,
}
use quarry.Store.Types.{
  Job, JobState, JobState-eq, pending, queued, running, succeeded, failed, cancelled, skipped,
  JobDep, RunState, RunState-eq, run_state,
}
use quarry.Store.Monad.{out_of_fuel, internal, M, ◌>>=◌, ◌>>◌, return, throw, guard}
use quarry.Store.Jobs.{list_jobs, transition_pending_job}
use quarry.Store.Runs.{get_run, set_run_state, list_job_deps}
use quarry.Scheduler.Types.{enter, event}

-- The map `state`, from the ids of the run's jobs.
abbrev pub States : Type 0
States = List (String × JobState)

unfoldable pub state_at : States → String → Option JobState
state_at [] id = none
state_at ((k, st) ∷ rest) id = if k == id then some st else state_at rest id

unfoldable pub set_state : States → String → JobState → States
set_state [] id to = (id, to) ∷ []
set_state ((k, st) ∷ rest) id to =
    if k == id then (k, to) ∷ rest else (k, st) ∷ set_state rest id to

abbrev pub states_of : List Job → States
states_of jobs = map (λ (j : Job). (j.id, j.state)) jobs

abbrev pub needs_of : List JobDep → String → List String
needs_of deps id = map (λ (d : JobDep). d.needs_job_id) (select (λ d. d.job_id == id) deps)

abbrev pub is_blocking : Option JobState → Bool
is_blocking (some failed) = true
is_blocking (some cancelled) = true
is_blocking (some skipped) = true
is_blocking _ = false

abbrev pub is_waiting : Option JobState → Bool
is_waiting (some succeeded) = false
is_waiting (some failed) = false
is_waiting (some cancelled) = false
is_waiting (some skipped) = false
is_waiting _ = true

-- What becomes of a pending job: `none` is the `continue` of a job that still waits.
unfoldable pub next_state : States → List String → Option JobState
next_state states needs =
    if any (λ n. is_blocking (state_at states n)) needs
    then some skipped
    else if any (λ n. is_waiting (state_at states n)) needs
    then none
    else some queued

abbrev pub event_type : JobState → String
event_type skipped = "job.skipped"
event_type _ = "job.queued"

unfoldable pub move : String → States → String → JobState → M States
unfolding enter
move run_id states id next = do
  done ← transition_pending_job id next
  guard done (internal "job left pending under us")
  enter next
  event run_id id (event_type next) []
  return (set_state states id next)

abbrev pub is_pending_in : States → String → Bool
is_pending_in states id = elim (state_at states id) [ some st ↦ st == pending | none ↦ false ]

-- The body of the inner loop: the states after it, and `changed`.
unfoldable pub visit : String → List JobDep → States × Bool → Job → M (States × Bool)
unfolding next_state move
visit run_id deps (states, changed) j =
    if is_pending_in states j.id
    then elim (next_state states (needs_of deps j.id)) [
      | none ↦ return (states, changed)
      | some next ↦ do states' ← move run_id states j.id next; return (states', true)
    ]
    else return (states, changed)

unfoldable pub pass : String → List JobDep → List Job → States × Bool → M (States × Bool)
pass run_id deps [] acc = return acc
pass run_id deps (j ∷ js) acc = do acc' ← visit run_id deps acc j; pass run_id deps js acc'

-- `for changed := true; changed;`
unfoldable pub settle : ℕ → String → List JobDep → List Job → States → M States
settle zero run_id deps jobs states = throw out_of_fuel
settle (suc fuel) run_id deps jobs states = do
  (states', changed) ← pass run_id deps jobs (states, false)
  elim changed [ true ↦ settle fuel run_id deps jobs states' | false ↦ return states' ]

-- The final state of the run, or `none` while a job can still change.
unfoldable pub final_state : RunState → States → Option RunState
final_state final [] = some final
final_state final ((id, pending) ∷ rest) = none
final_state final ((id, queued) ∷ rest) = none
final_state final ((id, running) ∷ rest) = none
final_state final ((id, failed) ∷ rest) = final_state RunState.failed rest
final_state final ((id, cancelled) ∷ rest) =
    final_state (if final == RunState.failed then final else RunState.cancelled) rest
final_state final ((id, _) ∷ rest) = final_state final rest

unfoldable pub finish_run : String → RunState → M (Unit {0})
finish_run run_id final = do
  run ← get_run run_id
  if run.state == RunState.pending || run.state == RunState.running
      then (do
        done ← set_run_state run_id run.state final
        event run_id "" "run.finished" (("state", run_state final) ∷ []))
      else return tt

-- Each round but the last moves a pending job: there is fuel for one round more than there are jobs.
unfoldable pub advance : String → M (Unit {0})
unfolding finish_run
advance run_id = do
  jobs ← list_jobs run_id
  deps ← list_job_deps run_id
  states ← settle (suc (length jobs)) run_id deps jobs (states_of jobs)
  elim (final_state RunState.succeeded states) [
    | none ↦ return tt
    | some final ↦ finish_run run_id final
  ]
