-- ===== src/Life/Submitting.antt =====
-- The submission of a run adds new rows, each under an id of its own.
use quarry.Base.{
  ℕ, suc, ◌<◌, String, List, [], ◌∷◌, ◌++◌, none, some, ◌≡◌, ◌≢◌, ◌⊎◌, inl, inr, refl, arith, All,
  All-map, any, any-false, Bool-cases,
}
use quarry.Store.Types.{Job, JobState, JobDep, Run, pending, queued}
use quarry.Store.Monad.{Store, throw}
use quarry.Store.Rules.{Keeps, Keeps-bind, Keeps-guard, Keeps-return, Always, Always-tx}
use quarry.Store.Runs.{
  NewRun, NewJob, job_row, clashes, insert_run, insert_job, insert_jobs, insert_dep, insert_deps,
  create_run,
}
use quarry.Pipeline.Types.{Pipeline, PipelineJob, roots}
use quarry.Api.Submit.{new_jobs, submit_run}
use quarry.Life.Move.{Move}
use quarry.Life.Stable.{IsStable, IsStable-IsTimeless, now-Keeps}
use quarry.Life.Quiet.{append_event-Keeps}

-- A row as submission makes it.
pub record IsNew (j : Job) : Type 0 where
  pub waits : (j.state ≡ pending) ⊎ (j.state ≡ queued)
  pub unused : j.attempt ≡ 0
  pub allowed : 0 < j.max_attempts
  pub free : j.lease_expires_at ≡ none
  pub uncancelled : j.cancel_requested_at ≡ none

-- A property that new rows and new edges do not break.
pub record IsExtendable (P : Store → Type 0) : Type 0 where
  pub add :
      (s : Store) (j : Job)
      → IsNew j
      → All (λ k. k.id ≢ j.id) s.jobs
      → P s
      → P (record s { jobs = s.jobs ++ j ∷ [] })
  pub link : (s : Store) (d : JobDep) → P s → P (record s { job_deps = s.job_deps ++ d ∷ [] })

-- What submission asks of each job: no attempt is used, and it waits.
abbrev IsSubmitted : NewJob → Type 0
IsSubmitted j =
    (j.attempt ≡ 0) × ((j.state ≡ some JobState.pending) ⊎ (j.state ≡ some JobState.queued))

job_row-IsNew :
    (run_id : String) (j : NewJob) (time : ℕ) → IsSubmitted j → IsNew (job_row run_id j time)
unfolding job_row
job_row-IsNew run_id j time h = ground arith

module _ {P : Store → Type 0} (c : IsStable Move P) (x : IsExtendable P) where
  insert_run-Keeps : (r : Run) → Keeps P (insert_run r)
  unfolding insert_run throw
  insert_run-Keeps r = record {
    at = λ s p.
        let with_runs = λ (rs : List Run). c.quiet s (record s { runs = rs }) refl refl p in
        ground (arith, with_runs (s.runs ++ r ∷ []));
  }

  insert_job-Keeps : (j : Job) → IsNew j → Keeps P (insert_job j)
  unfolding insert_job throw
  insert_job-Keeps j n = record {
    at = λ s p. elim (Bool-cases (any (clashes j) s.jobs)) [
      | inl e ↦ rw e tt
      | inr e ↦ rw e (
          x.add s j n
            (All-map _ _ s.jobs (λ k f. ground (arith, f)) (any-false (clashes j) s.jobs e)) p)
    ];
  }

  insert_jobs-Keeps :
      (run_id : String) (time : ℕ) (js : List NewJob)
      → All IsSubmitted js
      → Keeps P (insert_jobs run_id time js)
  unfolding insert_jobs
  insert_jobs-Keeps run_id time [] h = Keeps-return tt
  insert_jobs-Keeps run_id time (j ∷ js) h = Keeps-bind _ _ (Keeps-guard _ _) λ _.
      Keeps-bind _ _ (insert_job-Keeps _ (job_row-IsNew run_id j time h.0))
        λ _. insert_jobs-Keeps run_id time js h.1

  insert_dep-Keeps : (d : JobDep) → Keeps P (insert_dep d)
  unfolding insert_dep throw
  insert_dep-Keeps d = record { at = λ s p. let linked = x.link s d p in ground (arith, linked) }

  insert_deps-Keeps : (js : List NewJob) (ds : List JobDep) → Keeps P (insert_deps js ds)
  unfolding insert_deps
  insert_deps-Keeps js [] = Keeps-return tt
  insert_deps-Keeps js (d ∷ ds) =
      Keeps-bind _ _ (Keeps-guard _ _)
        λ _. Keeps-bind _ _ (insert_dep-Keeps d) λ _. insert_deps-Keeps js ds

  create_run-Keeps :
      (r : NewRun) (js : List NewJob) (ds : List JobDep)
      → All IsSubmitted js
      → Keeps P (create_run r js ds)
  unfolding create_run
  create_run-Keeps r js ds h = Keeps-bind _ _ (Keeps-guard _ _) λ _.
      Keeps-bind _ _ (Keeps-guard _ _) λ _. Keeps-bind _ _ (now-Keeps c) λ time.
        Keeps-bind _ _ (insert_run-Keeps _)
          λ _. Keeps-bind _ _ (insert_jobs-Keeps r.id time js h) λ _. insert_deps-Keeps js ds

  module _ (encode : PipelineJob → String) (new_id : ℕ → String) (max_attempts : ℕ) where
    new_jobs-IsSubmitted :
        (names : List String) (i : ℕ) (js : List PipelineJob)
        → All IsSubmitted (new_jobs encode new_id max_attempts names i js)
    unfolding new_jobs
    new_jobs-IsSubmitted names i [] = tt
    new_jobs-IsSubmitted names i (j ∷ js) = (ground arith, new_jobs-IsSubmitted names (suc i) js)

    pub submit_run-Keeps :
        (run_id : String) (p : Pipeline) (src : String)
        → Always P (submit_run encode new_id max_attempts run_id p src)
    unfolding submit_run
    submit_run-Keeps run_id p src = Always-tx _ (IsStable-IsTimeless c) (
        Keeps-bind _ _ (create_run-Keeps _ _ _ (new_jobs-IsSubmitted (roots p.jobs) 0 p.jobs))
          λ _. append_event-Keeps c _ _ _ _)
