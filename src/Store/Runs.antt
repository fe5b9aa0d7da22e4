-- ===== src/Store/Runs.antt =====
-- internal/store/runs.go: runs, and the insertion of a run with its jobs and edges.
use quarry.Base.{
  ℕ, String, List, [], ◌∷◌, ◌++◌, Option, none, some, Bool, ◌&&◌, ◌||◌, not, ◌==◌, ℕ-eq, String-eq,
  if◌then◌else◌, length, select, find, update, any,
}
use quarry.Store.Types.{Run, RunState, RunState-eq, Job, JobState, JobDep}
use quarry.Store.Monad.{
  not_found, constraint, required, ok, M, ◌>>=◌, ◌>>◌, return, throw, now, guard, null_str,
  null_millis,
}

unfoldable pub get_run : String → M Run
get_run id s = elim (find (λ (r : Run). r.id == id) s.runs) [
  | none ↦ throw not_found s
  | some r ↦ ok r s
]

unfoldable pub update_runs : (Run → Bool) → (Run → Run) → M Bool
update_runs p f s = ok (length (select p s.runs) == 1) (record s { runs = update p f s.runs })

abbrev coalesce : Option ℕ → Option ℕ → Option ℕ
coalesce none old = old
coalesce (some t) old = some t

-- started_at is stamped on entry to running, finished_at on any terminal state.
abbrev started_stamp : RunState → ℕ → Option ℕ
started_stamp RunState.running time = some time
started_stamp _ time = none

abbrev finished_stamp : RunState → ℕ → Option ℕ
finished_stamp RunState.pending time = none
finished_stamp RunState.running time = none
finished_stamp _ time = some time

abbrev is_run_in : String → RunState → Run → Bool
is_run_in id from r = r.id == id && r.state == from

abbrev with_state : RunState → ℕ → Run → Run
with_state to time r = record r {
  state = to;
  started_at = coalesce (started_stamp to time) r.started_at;
  finished_at = coalesce (finished_stamp to time) r.finished_at;
}

unfoldable pub set_run_state : String → RunState → RunState → M Bool
unfolding update_runs
set_run_state id from to = do time ← now; update_runs (is_run_in id from) (with_state to time)

-- The edges whose job belongs to the run; the source also sorts them, which no caller observes.
unfoldable pub list_job_deps : String → M (List JobDep)
list_job_deps run_id s =
    ok (select (λ d. any (λ (j : Job). j.id == d.job_id && j.run_id == run_id) s.jobs) s.job_deps) s

-- The fields that a caller of CreateRun gives; `none` for a state and 0 for a number are missing.
pub record NewRun : Type 0 where
  pub id : String
  pub source_key : String
  pub pipeline_yaml : String
  pub commit_sha : String
  pub ref : String
  pub trigger : String
  pub state : Option RunState
  pub created_at : ℕ
  pub started_at : ℕ
  pub finished_at : ℕ

pub record NewJob : Type 0 where
  pub id : String
  pub name : String
  pub spec_json : String
  pub state : Option JobState
  pub attempt : ℕ
  pub max_attempts : ℕ
  pub queued_at : ℕ

abbrev run_state_or : Option RunState → RunState
run_state_or none = RunState.pending
run_state_or (some s) = s

abbrev job_state_or : Option JobState → JobState
job_state_or none = JobState.pending
job_state_or (some s) = s

unfoldable pub run_row : NewRun → ℕ → Run
unfolding null_str null_millis
run_row r time = record {
  id = r.id;
  source_key = r.source_key;
  pipeline_yaml = r.pipeline_yaml;
  commit_sha = null_str r.commit_sha;
  ref = null_str r.ref;
  trigger = r.trigger;
  state = run_state_or r.state;
  created_at = if r.created_at == 0 then time else r.created_at;
  started_at = null_millis r.started_at;
  finished_at = null_millis r.finished_at;
}

unfoldable pub job_row : String → NewJob → ℕ → Job
job_row run_id j time = record {
  id = j.id;
  run_id = run_id;
  name = j.name;
  spec_json = j.spec_json;
  state = job_state_or j.state;
  attempt = j.attempt;
  max_attempts = if j.max_attempts == 0 then 1 else j.max_attempts;
  runner_id = none;
  lease_expires_at = none;
  failure_kind = none;
  exit_code = none;
  error = none;
  queued_at = if j.queued_at == 0 then time else j.queued_at;
  started_at = none;
  finished_at = none;
  cancel_requested_at = none;
  cancel_reason = none;
}

-- PRIMARY KEY (id)
unfoldable pub insert_run : Run → M (Unit {0})
insert_run r s =
    if any (λ (q : Run). q.id == r.id) s.runs
    then throw constraint s
    else ok tt (record s { runs = s.runs ++ r ∷ [] })

-- PRIMARY KEY (id), UNIQUE (run_id, name)
abbrev pub clashes : Job → Job → Bool
clashes j k = k.id == j.id || (k.run_id == j.run_id && k.name == j.name)

unfoldable pub insert_job : Job → M (Unit {0})
insert_job j s =
    if any (clashes j) s.jobs
    then throw constraint s
    else ok tt (record s { jobs = s.jobs ++ j ∷ [] })

unfoldable pub insert_jobs : String → ℕ → List NewJob → M (Unit {0})
insert_jobs run_id time [] = return tt
insert_jobs run_id time (j ∷ js) = do
  guard (not (j.id == "" || j.name == "")) (required "job needs ID and Name")
  insert_job (job_row run_id j time)
  insert_jobs run_id time js

-- PRIMARY KEY (job_id, needs_job_id)
unfoldable pub insert_dep : JobDep → M (Unit {0})
insert_dep d s =
    if any (λ (e : JobDep). e.job_id == d.job_id && e.needs_job_id == d.needs_job_id) s.job_deps
    then throw constraint s
    else ok tt (record s { job_deps = s.job_deps ++ d ∷ [] })

abbrev is_id : List NewJob → String → Bool
is_id jobs id = any (λ (j : NewJob). j.id == id) jobs

unfoldable pub insert_deps : List NewJob → List JobDep → M (Unit {0})
insert_deps jobs [] = return tt
insert_deps jobs (d ∷ ds) = do
  guard (is_id jobs d.job_id && is_id jobs d.needs_job_id) (required "dep references a job outside")
  insert_dep d
  insert_deps jobs ds

unfoldable pub create_run : NewRun → List NewJob → List JobDep → M (Unit {0})
create_run r jobs deps = do
  guard (not (r.id == "")) (required "run.ID is required")
  guard (not (r.pipeline_yaml == "")) (required "PipelineYAML is required")
  time ← now
  insert_run (run_row r time)
  insert_jobs r.id time jobs
  insert_deps jobs deps
