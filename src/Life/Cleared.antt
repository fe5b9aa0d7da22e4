-- ===== src/Life/Cleared.antt =====
-- CancelRun of internal/scheduler/scheduler.go, as a whole: what it leaves of the run.
use native.Mathlib.Decide.{ℕ_discrete}
use quarry.Base.{
  ltb, none, if◌then◌else◌, ℕ-eq, String, List, [], ◌∷◌, Bool, true, false, ◌≡◌, refl, inl, inr,
  arith, All, All-map, any, select, ◌==◌, ◌&&◌, String-eq,
}
use quarry.Store.Types.{Job, Run, JobState-eq, Event, RunState-eq}
use quarry.Store.Monad.{Store, ◌>>=◌, ◌>>◌}
use quarry.Store.Rules.{
  Ensures, Holds, Ensures-bind, Ensures-tx, Ensures-weaken, Keeps-bind, Keeps-guard,
}
use quarry.Store.Jobs.{list_jobs}
use quarry.Store.Events.{list_events, limited}
use quarry.Store.Runs.{get_run}
use quarry.Scheduler.Advance.{advance}
use quarry.Scheduler.Types.{event}
use quarry.Scheduler.Cancel.{cancel_jobs, cancel_live, cancel_run, is_cancel_request}
use quarry.Life.Move.{Settles}
use quarry.Life.Stable.{IsStable-mono, Both}
use quarry.Life.Quiet.{get_run-Keeps, append_event-Keeps}
use quarry.Life.Advancing.{advance-Keeps}
use quarry.Life.Unique.{IsUnique}
use quarry.Life.Clearing.{
  CanStart, Calm, Settles-Calm, Listed, Covered, Left, Left-Calm, cancel_jobs-Remaining,
}

module _ (run_id : String) where
  Listed-cons :
      (b : Bool) (x : Job) (xs : List Job) (id : String)
      → Listed xs id
      → Listed (if b then x ∷ xs else xs) id
  Listed-cons true x xs id h = inr h
  Listed-cons false x xs id h = h

  -- The list that is read holds every job of the run.
  select-Covered : (ks : List Job) → All (Covered run_id (select (λ j. j.run_id == run_id) ks)) ks
  unfolding select
  select-Covered [] = tt
  select-Covered (k ∷ ks) = (
    (λ r w. rw (is_run k r) (inl (refl, w))),
    All-map _ _ ks (λ x c r w. Listed-cons (k.run_id == run_id) k _ x.id (c r w))
        (select-Covered ks),
  )
    where
      is_run : (k : Job) → k.run_id ≡ run_id → (k.run_id == run_id) ≡ true
      is_run k r = ground (arith, r)

  list_jobs-Remaining : Ensures IsUnique (list_jobs run_id) (λ js. Left run_id js)
  unfolding list_jobs
  list_jobs-Remaining = record { at = λ s u. (u, select-Covered s.jobs) }

  -- No job of the run can start.
  abbrev pub IsCleared : Store → Type 0
  IsCleared s = All (λ (k : Job). k.run_id ≡ run_id → ¬ CanStart k.state) s.jobs

  cancel_all-Remaining :
      Ensures IsUnique
        (do
          jobs ← list_jobs run_id
          cancel_jobs run_id jobs
          event run_id "" "run.cancel_requested" []
          advance run_id
          get_run run_id)
        (λ _. IsCleared)
  cancel_all-Remaining = Ensures-bind (Left run_id) _ _ list_jobs-Remaining λ jobs.
      Ensures-bind (λ _. Left run_id []) _ _ (cancel_jobs-Remaining run_id jobs)
        λ _.
          Ensures-weaken _ (λ s h. h) (λ _ s h. h.1)
            (Keeps-bind _ _ (append_event-Keeps (Left-Calm run_id []) _ _ _ _) λ _.
              Keeps-bind _ _
                (advance-Keeps (IsStable-mono Calm Settles Settles-Calm (Left-Calm run_id []))
                  (λ s h. h.0) run_id)
                λ _. get_run-Keeps (Left run_id []) run_id)

  -- No cancel of the run was asked before.
  abbrev pub IsFirst : Store → Type 0
  IsFirst s =
      any is_cancel_request (select (λ (e : Event). e.run_id == run_id && ltb 0 e.id) s.events)
      ≡ false

  limited-none : (es : List Event) → limited none es ≡ es
  limited-none [] = refl
  limited-none (e ∷ es) = refl

  abbrev First : Store → Type 0
  First = Both IsUnique IsFirst

  list_events-IsFirst :
      Ensures First
        (list_events run_id 0 0)
        (λ es s. IsUnique s × (any is_cancel_request es ≡ false))
  unfolding list_events ℕ_discrete
  list_events-IsFirst = record { at = λ s (u, h). (u, rw (limited-none _) h) }

  cancel_live-IsCleared : (r : Run) → Ensures First (cancel_live run_id r) (λ _. IsCleared)
  unfolding cancel_live
  cancel_live-IsCleared r =
      Ensures-bind (λ es s. IsUnique s × (any is_cancel_request es ≡ false)) _ _ list_events-IsFirst
        λ es. record { at = λ s (u, h). rw h (cancel_all-Remaining.at s u) }

  -- Job ids are distinct and the run was not cancelled before. When CancelRun succeeds, no job of the
  -- run is pending or queued.
  pub cancel_run-IsCleared :
      (s : Store) → IsUnique s → IsFirst s → Holds (λ _. IsCleared) (cancel_run run_id s)
  unfolding cancel_run
  cancel_run-IsCleared s u f =
      (Ensures-tx _ (
          Ensures-bind (λ _. First) _ _ (get_run-Keeps First run_id)
            λ r. Ensures-bind (λ _. First) _ _ (Keeps-guard _ _) λ _. cancel_live-IsCleared r)).at
        s (u, f)
