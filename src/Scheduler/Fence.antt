-- ===== src/Scheduler/Fence.antt =====
-- The fence of the runner-side writes.
use quarry.Base.{
  any, All, subst, ℕ, suc, String, List, [], ◌∷◌, none, some, Bool, true, false, ◌≡◌, ◌≢◌, ◌⊎◌, inl,
  inr, refl, arith, Bool-cases, select, update, ℕ-eq, String-eq,
}
use quarry.Store.Types.{Job, JobState-eq, running, LogChunk}
use quarry.Store.Monad.{Store, fenced, ok, err, ◌>>=◌, tx, guard, now}
use quarry.Store.Jobs.{is_queued, to_running, claim_job, update_jobs, get_job}
use quarry.Scheduler.Types.{is_terminal}
use quarry.Scheduler.Complete.{Result, is_reportable, complete_job, complete}
use quarry.Scheduler.Logs.{append_logs, is_bad_seq}
use quarry.Life.Quiet.{Found, get_job-Keeps}
use quarry.Life.Stable.{update-none}
use quarry.Store.Rules.{Holds, Ensures, Ensures-bind, Ensures-return, Ensures-if}

pub get_job-eq : (id : String) (j : Job) (s : Store) → Found id j s → get_job id s ≡ ok j s
unfolding get_job
get_job-eq id j s e = rw (e, get_job)

none_queued :
    (id runner : String) (lease time : ℕ) (js : List Job)
    → select (is_queued id) (update (is_queued id) (to_running runner lease time) js) ≡ []
unfolding select update
none_queued id runner lease time [] = refl
none_queued id runner lease time (j ∷ js) = ground (arith, none_queued id runner lease time js)

abbrev Unclaimed : String → Store → Type 0
Unclaimed id s = select (is_queued id) s.jobs ≡ []

anything : Ensures (λ _. Unit {0}) now (λ _ _. Unit {0})
unfolding now
anything = record { at = λ s p. tt }

none_matches : (p : Job → Bool) (js : List Job) → select p js ≡ [] → All (λ j. p j ≡ true → ⊥) js
unfolding select
none_matches p [] e = tt
none_matches p (j ∷ js) e = elim (Bool-cases (p j)) [
  | inl t ↦ absurd (ground (arith, e, t))
  | inr t ↦ ((λ u. cc), none_matches p js (rw (t, select) at e))
]

claim_job-Unclaimed :
    (id runner : String) (lease : ℕ) (t : Store)
    → Unclaimed id t
    → (u : Store) × (claim_job id runner lease t ≡ ok none u) × (u.jobs ≡ t.jobs)
unfolding claim_job update_jobs ◌>>=◌
claim_job-Unclaimed id runner lease t h = (
  record t {
    clock = λ n. t.clock (suc n);
    jobs = update (is_queued id) (to_running runner lease (t.clock 0)) t.jobs;
  },
  ground (arith, h),
  update-none _ _ t.jobs (none_matches (is_queued id) t.jobs h),
)

-- After a claim, whether it was won or lost, no row under the id is queued.
claim_job-Ensures :
    (id runner : String) (lease : ℕ)
    → Ensures (λ _. Unit {0}) (claim_job id runner lease) (λ o. Unclaimed id)
unfolding claim_job update_jobs
claim_job-Ensures id runner lease =
    Ensures-bind (λ _ _. Unit {0}) _ _ anything
      λ time.
        Ensures-bind (λ _. Unclaimed id) _ _
          (record { at = λ s _. none_queued id runner lease time s.jobs })
          λ won.
            Ensures-if won _ _
              (λ _.
                Ensures-bind (λ _. Unclaimed id) _ _ (get_job-Keeps (Unclaimed id) id)
                  λ j. Ensures-return (λ _. Unclaimed id) (some j.attempt))
              (λ _. Ensures-return (λ _. Unclaimed id) none)

-- Of two claims of one job, the second gets nothing, whoever makes it, and changes no row.
pub claim_job_once :
    (id first second : String) (lease lease' n : ℕ) (s t : Store)
    → claim_job id first lease s ≡ ok (some n) t
    → (u : Store) × (claim_job id second lease' t ≡ ok none u) × (u.jobs ≡ t.jobs)
claim_job_once id first second lease lease' n s t e =
    claim_job-Unclaimed id second lease' t
      (subst (Holds (λ o s. Unclaimed id s)) e ((claim_job-Ensures id first lease).at s tt))

-- A well-formed report for a job that has its verdict from the same attempt is a no-op: the row is returned as it
-- is, and the store is untouched.
pub complete_duplicate :
    (id : String) (attempt : ℕ) (res : Result) (j : Job) (s : Store)
    → Found id j s
    → is_reportable res.status res.failure_kind ≡ true
    → j.attempt ≡ attempt
    → is_terminal j.state ≡ true
    → complete id attempt res s ≡ ok j s
unfolding complete complete_job ◌>>=◌ guard tx is_terminal
complete_duplicate id attempt res j s e r a t = ground (arith, get_job-eq id j s e)

-- A well-formed report for another attempt than the job's, or for a job that neither runs nor has its
-- verdict, is refused and changes nothing.
pub complete_stale :
    (id : String) (attempt : ℕ) (res : Result) (j : Job) (s : Store)
    → Found id j s
    → is_reportable res.status res.failure_kind ≡ true
    → (j.attempt ≢ attempt) ⊎ ((j.state ≢ running) × (is_terminal j.state ≡ false))
    → complete id attempt res s ≡ err fenced s
unfolding complete complete_job ◌>>=◌ guard tx is_terminal
complete_stale id attempt res j s e r h = ground (arith, get_job-eq id j s e)

-- A batch of log chunks with valid numbers, for another attempt than the job's or for a job that does
-- not run, is refused and changes nothing.
pub append_logs_stale :
    (log_cap : ℕ) (id : String) (attempt : ℕ) (chunks : List LogChunk) (j : Job) (s : Store)
    → Found id j s
    → any is_bad_seq chunks ≡ false
    → (j.attempt ≢ attempt) ⊎ (j.state ≢ running)
    → append_logs log_cap id attempt chunks s ≡ err fenced s
unfolding append_logs ◌>>=◌ guard tx
append_logs_stale log_cap id attempt chunks j s e b h = ground (arith, get_job-eq id j s e)
