-- ===== src/Life/Quiet.antt =====
-- The actions that touch no row of the table jobs.
use quarry.Base.{
  arith, update, ◌++◌, ◌≡◌, refl, String, List, [], ◌∷◌, Option, none, some, ℕ, Bool, ◌==◌,
  String-eq, find,
}
use quarry.Store.Types.{Job, Run, Runner, LogRow, Detail, RunState, JobState}
use quarry.Store.Monad.{Store, ok, throw, not_found, return, Error}
use quarry.Store.Rules.{
  Holds, Ensures-weaken, Keeps, Ensures, Keeps-bind, Keeps-guard, Keeps-if, Keeps-return,
  Keeps-throw,
}
use quarry.Store.Jobs.{get_job, list_jobs, list_queued_jobs, list_running_jobs}
use quarry.Store.Runs.{get_run, set_run_state, update_runs, list_job_deps}
use quarry.Store.Runners.{
  NewRunner, refreshed, unknown_runner, put_runner, upsert_runner, touch_runner, update_runners,
  set_offline, mark_runners_offline,
}
use quarry.Store.Events.{append_event, insert_event, list_events, has_job_event}
use quarry.Store.Logs.{log_bytes, insert_log_chunk, log_row}
use quarry.Scheduler.Types.{Spec, job_spec, enter, finished}
use quarry.Life.Stable.{Class, IsStable, now-Keeps}

-- The row that `find` returns is the one that get_job reads.
abbrev pub Found : String → Job → Store → Type 0
Found id j s = find (λ (k : Job). k.id == id) s.jobs ≡ some j

module _ (P : Store → Type 0) where
  pub get_job-Ensures : (id : String) → Ensures P (get_job id) (λ j s. P s × Found id j s)
  unfolding get_job throw
  get_job-Ensures id = record { at = λ s p. found s p (find (λ (k : Job). k.id == id) s.jobs) refl }
    where
      found :
          (s : Store)
          → P s
          → (o : Option Job) → find (λ (k : Job). k.id == id) s.jobs ≡ o
          → Holds {A = Job}
              (λ j t. P t × Found id j t)
              (elim o [ none ↦ throw not_found s | some j ↦ ok j s ])
      found s p none e = tt
      found s p (some j) e = (p, e)

  pub get_job-Keeps : (id : String) → Keeps P (get_job id)
  get_job-Keeps id = Ensures-weaken (get_job id) (λ s p. p) (λ j s q. q.0) (get_job-Ensures id)

  pub get_run-Keeps : (id : String) → Keeps P (get_run id)
  unfolding get_run throw
  get_run-Keeps id = record { at = λ s p. found s p (find (λ (k : Run). k.id == id) s.runs) }
    where
      found :
          (s : Store)
          → P s
          → (o : Option Run)
          → Holds {A = Run} (λ _. P) (elim o [ none ↦ throw not_found s | some r ↦ ok r s ])
      found s p none = tt
      found s p (some r) = p

  pub list_jobs-Keeps : (run_id : String) → Keeps P (list_jobs run_id)
  unfolding list_jobs
  list_jobs-Keeps r = record { at = λ s p. p }

  pub list_queued_jobs-Keeps : Keeps P list_queued_jobs
  unfolding list_queued_jobs
  list_queued_jobs-Keeps = record { at = λ s p. p }

  pub list_running_jobs-Keeps : Keeps P list_running_jobs
  unfolding list_running_jobs
  list_running_jobs-Keeps = record { at = λ s p. p }

  pub list_job_deps-Keeps : (run_id : String) → Keeps P (list_job_deps run_id)
  unfolding list_job_deps
  list_job_deps-Keeps r = record { at = λ s p. p }

  pub list_events-Keeps : (run_id : String) (a l : ℕ) → Keeps P (list_events run_id a l)
  unfolding list_events
  list_events-Keeps r a l = record { at = λ s p. p }

  pub has_job_event-Keeps :
      (run_id job_id type : String) (n : ℕ) → Keeps P (has_job_event run_id job_id type n)
  unfolding has_job_event
  has_job_event-Keeps r j t n = record { at = λ s p. p }

  pub log_bytes-Keeps : (job_id : String) (n : ℕ) → Keeps P (log_bytes job_id n)
  unfolding log_bytes
  log_bytes-Keeps j n = record { at = λ s p. p }

  pub job_spec-Keeps : (decode : String → Option Spec) (j : Job) → Keeps P (job_spec decode j)
  unfolding job_spec
  job_spec-Keeps decode j = go (decode j.spec_json)
    where
      go :
          (o : Option Spec)
          → Keeps {A = Spec} P
              (elim o [ none ↦ throw (Error.internal "decode spec") | some spec ↦ return spec ])
      go none = Keeps-throw _
      go (some spec) = Keeps-return spec

module _ {V : Class} {P : Store → Type 0} (c : IsStable V P) where
  insert_event-Keeps :
      (run_id job_id type : String) (detail : List (String × Detail)) (time : ℕ)
      → Keeps P (insert_event run_id job_id type detail time)
  unfolding insert_event
  insert_event-Keeps r j t d n = record { at = λ s. c.quiet s _ refl refl }

  pub append_event-Keeps :
      (run_id job_id type : String) (detail : List (String × Detail))
      → Keeps P (append_event run_id job_id type detail)
  unfolding append_event
  append_event-Keeps r j t d =
      Keeps-bind _ _ (Keeps-guard _ _)
        λ _. Keeps-bind _ _ (now-Keeps c) λ time. insert_event-Keeps r j t d time

  pub enter-Keeps : (st : JobState) → Keeps P (enter st)
  unfolding enter
  enter-Keeps st = record { at = λ s. c.quiet s _ refl refl }

  pub finished-Keeps : (st : JobState) (a b : ℕ) → Keeps P (finished st a b)
  unfolding finished
  finished-Keeps st a b =
      Keeps-bind _ _ (enter-Keeps st) λ _. record { at = λ s. c.quiet s _ refl refl }

  update_runs-Keeps : (p : Run → Bool) (f : Run → Run) → Keeps P (update_runs p f)
  unfolding update_runs
  update_runs-Keeps p f = record { at = λ s. c.quiet s _ refl refl }

  pub set_run_state-Keeps : (id : String) (from to : RunState) → Keeps P (set_run_state id from to)
  unfolding set_run_state
  set_run_state-Keeps id from to = Keeps-bind _ _ (now-Keeps c) λ time. update_runs-Keeps _ _

  update_runners-Keeps : (p : Runner → Bool) (f : Runner → Runner) → Keeps P (update_runners p f)
  unfolding update_runners
  update_runners-Keeps p f = record { at = λ s. c.quiet s _ refl refl }

  put_runner-Keeps : (r : Runner) → Keeps P (put_runner r)
  unfolding put_runner throw
  put_runner-Keeps r = record {
    at = λ s p.
        let with_runners =
          λ (rs : List Runner). c.quiet s (record s { runners = rs }) refl refl p in
        ground (
          arith,
          with_runners (update (λ q. q.id == r.id) (refreshed r) s.runners),
          with_runners (s.runners ++ r ∷ []),
        );
  }

  pub upsert_runner-Keeps : (r : NewRunner) → Keeps P (upsert_runner r)
  unfolding upsert_runner
  upsert_runner-Keeps r =
      Keeps-bind _ _ (Keeps-guard _ _) λ _. Keeps-bind _ _ (now-Keeps c) λ time. put_runner-Keeps _

  pub touch_runner-Keeps : (id : String) → Keeps P (touch_runner id)
  unfolding touch_runner
  touch_runner-Keeps id = Keeps-bind _ _ (now-Keeps c) λ time.
      Keeps-bind _ _ (update_runners-Keeps _ _)
        λ known. Keeps-if known _ _ (Keeps-return tt) (upsert_runner-Keeps (unknown_runner id))

  set_offline-Keeps : (ids : List String) → Keeps P (set_offline ids)
  unfolding set_offline
  set_offline-Keeps [] = Keeps-return tt
  set_offline-Keeps (id ∷ ids) =
      Keeps-bind _ _ (update_runners-Keeps _ _) λ _. set_offline-Keeps ids

  pub mark_runners_offline-Keeps : (n : ℕ) → Keeps P (mark_runners_offline n)
  unfolding mark_runners_offline
  mark_runners_offline-Keeps n = record {
    at = λ s p. (Keeps-bind _ _ (set_offline-Keeps _) (λ _. Keeps-return _)).at s p;
  }

  pub insert_log_chunk-Keeps :
      (job_id : String) (a n : ℕ) (bytes : List ℕ) → Keeps P (insert_log_chunk job_id a n bytes)
  unfolding insert_log_chunk
  insert_log_chunk-Keeps j a n bytes = record {
    at = λ s p.
        let with_rows =
          λ (rs : List LogRow). c.quiet s (record s { log_chunks = rs }) refl refl p in
        ground (arith, with_rows (s.log_chunks ++ log_row j a n bytes ∷ []));
  }
