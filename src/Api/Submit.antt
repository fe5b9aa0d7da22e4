-- ===== src/Api/Submit.antt =====
-- internal/api/submit.go: a validated pipeline becomes a run with its jobs and edges.
use quarry.Base.{
  ℕ, suc, String, List, [], ◌∷◌, ◌++◌, some, ◌==◌, String-eq, if◌then◌else◌, map, length, any,
}
use quarry.Store.Types.{JobState, JobDep, RunState, num, texts}
use quarry.Store.Monad.{M, ◌>>◌, tx}
use quarry.Store.Runs.{NewRun, NewJob, create_run}
use quarry.Store.Events.{append_event}
use quarry.Pipeline.Types.{Pipeline, PipelineJob, roots}

-- The map `ids`: a later job of the same name overwrites, a missing name reads as "".
unfoldable pub id_of : List NewJob → String → String
id_of [] name = ""
id_of (j ∷ js) name =
    let rest = id_of js name in
    if any (λ (k : NewJob). k.name == name) js then rest else if j.name == name then j.id else ""

-- Encoding a job is encoding/json and its id is random: both are parameters.
module _ (encode : PipelineJob → String) (new_id : ℕ → String) (max_attempts : ℕ) where
  abbrev pub new_job : List String → ℕ → PipelineJob → NewJob
  new_job root_names i j = record {
    id = new_id i;
    name = j.name;
    spec_json = encode j;
    state = some (
        if any (λ (r : String). r == j.name) root_names then JobState.queued else JobState.pending);
    attempt = 0;
    max_attempts = max_attempts;
    queued_at = 0;
  }

  unfoldable pub new_jobs : List String → ℕ → List PipelineJob → List NewJob
  new_jobs root_names i [] = []
  new_jobs root_names i (j ∷ js) = new_job root_names i j ∷ new_jobs root_names (suc i) js

  abbrev pub job_deps : List NewJob → PipelineJob → List JobDep
  job_deps jobs j =
      map (λ need. record { job_id = id_of jobs j.name; needs_job_id = id_of jobs need }) j.needs

  unfoldable pub new_deps : List NewJob → List PipelineJob → List JobDep
  new_deps jobs [] = []
  new_deps jobs (j ∷ js) = job_deps jobs j ++ new_deps jobs js

  abbrev pub new_run : String → String → NewRun
  new_run run_id src = record {
    id = run_id;
    source_key = "";
    pipeline_yaml = src;
    commit_sha = "";
    ref = "";
    trigger = "api";
    state = some RunState.pending;
    created_at = 0;
    started_at = 0;
    finished_at = 0;
  }

  unfoldable pub submit_run : String → Pipeline → String → M (Unit {0})
  unfolding new_jobs new_deps
  submit_run run_id p src =
      let jobs = new_jobs (roots p.jobs) 0 p.jobs in
      tx (do
        create_run (new_run run_id src) jobs (new_deps jobs p.jobs)
        append_event run_id "" "run.created"
            (("jobs", num (length jobs)) ∷ ("roots", texts (roots p.jobs)) ∷ []))
