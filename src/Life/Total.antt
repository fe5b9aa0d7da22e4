-- ===== src/Life/Total.antt =====
-- advance of internal/scheduler/scheduler.go, as a whole: it returns.
use quarry.Base.{
  ℕ, zero, suc, String, List, [], ◌∷◌, Option, none, some, Bool, true, false, ◌≡◌, refl, arith,
  length, find, ◌==◌, ◌||◌, String-eq, String-discrete, if◌then◌else◌, select,
}
use quarry.Store.Types.{
  Job, JobDep, JobState, Run, RunState, RunState-eq, pending, queued, running, succeeded, failed,
  cancelled, skipped, run_state,
}
use quarry.Store.Monad.{Store, ok, ◌>>=◌, return, throw, guard, now, not_found}
use quarry.Store.Rules.{
  Ensures-weaken, Keeps, Keeps-bind, Keeps-return, Keeps-if, Keeps-guard, Keeps-throw,
}
use quarry.Store.Success.{Succeeds, Succeeds-bind, Succeeds-return, Ensures-any, IsOk, IsOk-result}
use quarry.Store.Events.{append_event, insert_event}
use quarry.Store.Jobs.{transition_pending_job, transition_to, update_jobs, list_jobs}
use quarry.Store.Runs.{get_run, set_run_state, update_runs, list_job_deps}
use quarry.Scheduler.Types.{enter, event}
use quarry.Scheduler.Advance.{
  States, states_of, needs_of, next_state, move, visit, pass, settle, final_state, finish_run,
  advance,
}
use quarry.Life.Settling.{Loop}
use quarry.Life.Advancing.{list_job_deps-Ensures}
use quarry.Life.Unique.{IsUnique}
use quarry.Life.Rounds.{pendings-states_of}
use quarry.Life.Ending.{settle-Succeeds, IsUnique-Settles}

finished-named : let t : String = "run.finished" in (t == "") ≡ false
unfolding String-discrete
finished-named = refl

module _ (run_id : String) (r : Run) where
  -- The run is in the table.
  abbrev pub HasRun : Store → Type 0
  HasRun s = find (λ (k : Run). k.id == run_id) s.runs ≡ some r

  transition_to-HasRun :
      (id : String) (next : JobState) (time : ℕ) → Keeps HasRun (transition_to id next time)
  unfolding update_jobs throw
  transition_to-HasRun id queued time = record { at = λ s h. h }
  transition_to-HasRun id skipped time = record { at = λ s h. h }
  transition_to-HasRun id pending time = Keeps-throw _
  transition_to-HasRun id running time = Keeps-throw _
  transition_to-HasRun id succeeded time = Keeps-throw _
  transition_to-HasRun id failed time = Keeps-throw _
  transition_to-HasRun id cancelled time = Keeps-throw _

  now-HasRun : Keeps HasRun now
  unfolding now
  now-HasRun = record { at = λ s h. h }

  move-HasRun :
      (states : States) (id : String) (next : JobState) → Keeps HasRun (move run_id states id next)
  unfolding move transition_pending_job enter append_event insert_event
  move-HasRun states id next =
      Keeps-bind _ _ (Keeps-bind _ _ now-HasRun (transition_to-HasRun id next)) λ done.
        Keeps-bind _ _ (Keeps-guard done _) λ _.
          Keeps-bind _ _ (record { at = λ s h. h })
            λ _.
              Keeps-bind _ _
                (Keeps-bind _ _ (Keeps-guard _ _)
                  λ _. Keeps-bind _ _ now-HasRun λ time. record { at = λ s h. h })
                λ _. Keeps-return _

  visit-HasRun :
      (deps : List JobDep) (acc : States × Bool) (j : Job) → Keeps HasRun (visit run_id deps acc j)
  unfolding visit
  visit-HasRun deps (states, changed) j =
      Keeps-if _ _ _ (go (next_state states (needs_of deps j.id))) (Keeps-return _)
    where
      go :
          (o : Option JobState)
          → Keeps {A = States × Bool} HasRun (elim o [
            | none ↦ return (states, changed)
            | some next ↦ move run_id states j.id next >>= λ states'. return (states', true)
          ])
      go none = Keeps-return _
      go (some next) = Keeps-bind _ _ (move-HasRun states j.id next) λ _. Keeps-return _

  pass-HasRun :
      (deps : List JobDep) (js : List Job) (acc : States × Bool)
      → Keeps HasRun (pass run_id deps js acc)
  unfolding pass
  pass-HasRun deps [] acc = Keeps-return acc
  pass-HasRun deps (j ∷ js) acc = Keeps-bind _ _ (visit-HasRun deps acc j) (pass-HasRun deps js)

  settle-HasRun :
      (fuel : ℕ) (deps : List JobDep) (jobs : List Job) (states : States)
      → Keeps HasRun (settle fuel run_id deps jobs states)
  unfolding settle
  settle-HasRun zero deps jobs states = Keeps-throw _
  settle-HasRun (suc fuel) deps jobs states =
      Keeps-bind _ _ (pass-HasRun deps jobs (states, false))
        λ (states', changed). go states' changed (settle-HasRun fuel deps jobs states')
    where
      go :
          (states' : States) (changed : Bool)
          → Keeps HasRun (settle fuel run_id deps jobs states')
          → Keeps HasRun (elim changed [
            | true ↦ settle fuel run_id deps jobs states'
            | false ↦ return states'
          ])
      go states' true k = k
      go states' false k = Keeps-return states'

  module _ (named : (run_id == "") ≡ false) where
    get_run-Succeeds : Succeeds HasRun (get_run run_id)
    unfolding get_run
    get_run-Succeeds = record { at = λ s h. found s (find (λ (k : Run). k.id == run_id) s.runs) h }
      where
        found :
            (s : Store) (o : Option Run)
            → o ≡ some r
            → IsOk {A = Run} (elim o [ none ↦ throw not_found s | some k ↦ ok k s ])
        found s none e = cc e
        found s (some k) e = tt

    event-Succeeds :
        (final : RunState)
        → Succeeds
            (λ _. Unit {0})
            (event run_id "" "run.finished" (("state", run_state final) ∷ []))
    unfolding append_event insert_event now return guard ◌>>=◌
    event-Succeeds final = record { at = λ s w. rw (named, finished-named) tt }

    record-Succeeds :
        (from final : RunState)
        → Succeeds
            (λ _. Unit {0})
            (do
              done ← set_run_state run_id from final
              event run_id "" "run.finished" (("state", run_state final) ∷ []))
    unfolding set_run_state update_runs now ◌>>=◌
    record-Succeeds from final =
        Succeeds-bind (λ _ _. Unit {0}) (set_run_state run_id from final)
          (λ done. event run_id "" "run.finished" (("state", run_state final) ∷ []))
          (record { at = λ s w. tt }) (Ensures-any _ _) λ done. event-Succeeds final

    finish_run-Succeeds : (final : RunState) → Succeeds HasRun (finish_run run_id final)
    unfolding finish_run
    finish_run-Succeeds final =
        Succeeds-bind (λ _ _. Unit {0}) _ _ get_run-Succeeds (Ensures-any _ _)
          λ (run : Run). go run (run.state == RunState.pending || run.state == RunState.running)
      where
        go :
            (run : Run) (b : Bool)
            → Succeeds
                (λ _. Unit {0})
                (if b
                  then (do
                    done ← set_run_state run_id run.state final
                    event run_id "" "run.finished" (("state", run_state final) ∷ []))
                  else return tt)
        go run true = record-Succeeds run.state final
        go run false = Succeeds-return tt

    advance-Succeeds : Succeeds (λ s. IsUnique s × HasRun s) (advance run_id)
    unfolding advance list_jobs list_job_deps
    advance-Succeeds =
        Succeeds-bind
          (λ jobs s. (IsUnique s × (jobs ≡ select (λ j. j.run_id == run_id) s.jobs)) × HasRun s) _ _
          (record { at = λ s h. tt }) (record { at = λ s (u, h). ((u, refl), h) })
          λ jobs.
            Succeeds-bind (λ deps s. Loop IsUnique deps jobs (states_of jobs) s × HasRun s) _ _
              (record { at = λ s h. tt })
              (record {
                at = λ s (a, h).
                    ((list_job_deps-Ensures IsUnique-Settles (λ t u. u) run_id jobs).at s a, h);
              })
              λ deps.
                Succeeds-bind (λ _. HasRun) _ _
                  (record {
                    at = λ s (a, h).
                        (settle-Succeeds run_id named deps jobs (suc (length jobs)) (states_of jobs)
                            (omega (arith, pendings-states_of jobs))).at
                          s a;
                  })
                  (Ensures-weaken _ (λ s h. h.1) (λ _ s h. h)
                    (settle-HasRun (suc (length jobs)) deps jobs (states_of jobs)))
                  λ states. go (final_state RunState.succeeded states)
      where
        go :
            (o : Option RunState)
            → Succeeds HasRun (elim o [ none ↦ return tt | some final ↦ finish_run run_id final ])
        go none = Succeeds-return tt
        go (some final) = finish_run-Succeeds final

    -- Job ids are distinct, and the run is in the table under an id that is not empty. Then advance
    -- returns: its rounds end within the fuel, and no job leaves pending under it.
    pub advance_returns :
        (s : Store) → IsUnique s → HasRun s → (t : Store) × (advance run_id s ≡ ok tt t)
    advance_returns s u h =
        let (a, t, e) = IsOk-result (advance run_id s) (advance-Succeeds.at s (u, h)) in (t, e)
