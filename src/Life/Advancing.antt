-- ===== src/Life/Advancing.antt =====
-- advance keeps every property that queueing ready jobs and skipping keep.
use quarry.Base.{
  ◌≢◌, subst, All-select, ℕ, zero, suc, String, List, [], ◌∷◌, Option, none, some, Bool, true,
  false, ◌≡◌, refl, arith, All, All-map, Bool-cases, inl, inr, ◌==◌, String-eq, ◌&&◌, select, any,
  find,
}
use quarry.Store.Types.{Job, JobState, JobDep, RunState}
use quarry.Store.Monad.{Store, return, ◌>>=◌}
use quarry.Store.Rules.{
  Ensures, Ensures-bind, Ensures-return, Ensures-throw, Ensures-if, Ensures-weaken, Keeps,
  Keeps-bind, Keeps-if, Keeps-return,
}
use quarry.Store.Jobs.{list_jobs}
use quarry.Store.Runs.{list_job_deps}
use quarry.Scheduler.Advance.{
  States, state_at, states_of, next_state, move, visit, pass, settle, final_state, finish_run,
  advance, needs_of, is_pending_in,
}
use quarry.Life.Move.{Settles}
use quarry.Life.Stable.{IsStable}
use quarry.Life.Quiet.{append_event-Keeps, set_run_state-Keeps, get_run-Keeps}
use quarry.Life.Sync.{Sync, Elem, All-self, Elem-select, Elem-map, any-true, InState}
use quarry.Life.Settling.{Loop, move-Ensures}
use quarry.Life.Unique.{IsUnique, Distinct, ids}

module _ {P : Store → Type 0} (c : IsStable Settles P) where
  pub visit-Ensures :
      (deps : List JobDep) (jobs : List Job) (states : States) (j : Job) (run_id : String)
      (changed : Bool)
      → Elem j jobs
      → Ensures
          (Loop P deps jobs states)
          (visit run_id deps (states, changed) j)
          (λ acc. Loop P deps jobs acc.0)
  unfolding visit
  visit-Ensures deps jobs states j run_id changed listed =
      Ensures-if _ _ _ (λ waits. go waits (next_state states (needs_of deps j.id)) refl)
        (λ _. Ensures-return (λ acc. Loop P deps jobs acc.0) (states, changed))
    where
      go :
          is_pending_in states j.id ≡ true
          → (o : Option JobState) → next_state states (needs_of deps j.id) ≡ o
          → Ensures {A = States × Bool}
              (Loop P deps jobs states)
              (elim o [
                | none ↦ return (states, changed)
                | some next ↦ move run_id states j.id next >>= λ states'. return (states', true)
              ])
              (λ acc. Loop P deps jobs acc.0)
      go waits none n = Ensures-return (λ acc. Loop P deps jobs acc.0) (states, changed)
      go waits (some next) n =
          Ensures-bind (Loop P deps jobs) _ _
            (move-Ensures c deps jobs states j listed waits run_id next n)
            λ states'. Ensures-return (λ acc. Loop P deps jobs acc.0) (states', true)

  pub pass-Ensures :
      (deps : List JobDep) (jobs : List Job) (run_id : String) (js : List Job) (acc : States × Bool)
      → All (λ j. Elem j jobs) js
      → Ensures (Loop P deps jobs acc.0) (pass run_id deps js acc) (λ acc'. Loop P deps jobs acc'.0)
  unfolding pass
  pass-Ensures deps jobs run_id [] acc h = Ensures-return (λ acc. Loop P deps jobs acc.0) acc
  pass-Ensures deps jobs run_id (j ∷ js) acc h =
      Ensures-bind (λ acc'. Loop P deps jobs acc'.0) _ _
        (visit-Ensures deps jobs acc.0 j run_id acc.1 h.0)
        λ acc'. pass-Ensures deps jobs run_id js acc' h.1

  settle-Ensures :
      (fuel : ℕ) (run_id : String) (deps : List JobDep) (jobs : List Job) (states : States)
      → Ensures (Loop P deps jobs states) (settle fuel run_id deps jobs states) (Loop P deps jobs)
  unfolding settle
  settle-Ensures zero run_id deps jobs states = Ensures-throw _ _ _
  settle-Ensures (suc fuel) run_id deps jobs states =
      Ensures-bind (λ acc'. Loop P deps jobs acc'.0) _ _
        (pass-Ensures deps jobs run_id jobs (states, false) (All-self jobs))
        λ (states', changed). go states' changed (settle-Ensures fuel run_id deps jobs states')
    where
      go :
          (states' : States) (changed : Bool)
          → Ensures
              (Loop P deps jobs states')
              (settle fuel run_id deps jobs states')
              (Loop P deps jobs)
          → Ensures
              (Loop P deps jobs states')
              (elim changed [
                | true ↦ settle fuel run_id deps jobs states'
                | false ↦ return states'
              ])
              (Loop P deps jobs)
      go states' true k = k
      go states' false k = Ensures-return (Loop P deps jobs) states'

  finish_run-Keeps : (run_id : String) (final : RunState) → Keeps P (finish_run run_id final)
  unfolding finish_run
  finish_run-Keeps run_id final = Keeps-bind _ _ (get_run-Keeps P run_id) λ run.
      Keeps-if _ _ _
        (Keeps-bind _ _ (set_run_state-Keeps c run_id run.state final)
          λ _. append_event-Keeps c _ _ _ _)
        (Keeps-return tt)

-- The map that is read from the table agrees with it.
abbrev IsRowOf : List Job → Job → Type 0
IsRowOf js j = find (λ (l : Job). l.id == j.id) js ≡ some j

states_of-agrees :
    (all js : List Job)
    → All (IsRowOf all) js
    → (id : String) (st : JobState) → state_at (states_of js) id ≡ some st
    → InState all id st
unfolding state_at
states_of-agrees all [] h id st e = cc
states_of-agrees all (j ∷ js) h id st e = elim (Bool-cases (j.id == id)) [
  | inl t ↦ (j, ground (arith, h.0, t), ground (arith, e, t))
  | inr t ↦ states_of-agrees all js h.1 id st (rw (t, state_at) at e)
]

abbrev belongs : String → List Job → JobDep → Bool
belongs run_id js d = any (λ (j : Job). j.id == d.job_id && j.run_id == run_id) js

covered :
    (run_id : String) (js : List Job) (ds : List JobDep) (j : Job)
    → Elem j js
    → (j.run_id == run_id) ≡ true
    → All
        (λ (d : JobDep).
          d.job_id ≡ j.id → Elem d.needs_job_id (needs_of (select (belongs run_id js) ds) j.id))
        ds
covered run_id js ds j listed mine =
    All-map _ _ ds
      (λ d there e.
        Elem-map (λ (d : JobDep). d.needs_job_id) _ d
          (Elem-select (λ (d : JobDep). d.job_id == j.id) _ d (ground (arith, e))
            (Elem-select (belongs run_id js) ds d (any-true _ js j listed (ground (arith, e, mine)))
              there)))
      (All-self ds)

Elem-of_select :
    (p : Job → Bool) (js : List Job) (j : Job) → Elem j (select p js) → Elem j js × (p j ≡ true)
unfolding select
Elem-of_select p [] j e = elim e [ ]
Elem-of_select p (k ∷ js) j e = elim (Bool-cases (p k)) [
  | inl t ↦ chosen t (Elem-of_select p js j) (rw (t, select) at e)
  | inr t ↦ let (a, b) = Elem-of_select p js j (rw (t, select) at e) in (inr a, b)
]
  where
    chosen :
        p k ≡ true
        → (Elem j (select p js) → Elem j js × (p j ≡ true))
        → Elem j (k ∷ select p js)
        → Elem j (k ∷ js) × (p j ≡ true)
    chosen t ih (inl same) = (inl same, rw same t)
    chosen t ih (inr later) = let (a, b) = ih later in (inr a, b)

rows_tail :
    (x : Job) (all js : List Job)
    → All (λ y. y ≢ x.id) (ids js)
    → All (IsRowOf all) js
    → All (IsRowOf (x ∷ all)) js
unfolding find
rows_tail x all [] n h = tt
rows_tail x all (j ∷ js) n h = (ground (arith, n.0, h.0), rows_tail x all js n.1 h.1)

Distinct-rows : (js : List Job) → Distinct (ids js) → All (IsRowOf js) js
unfolding find
Distinct-rows [] u = tt
Distinct-rows (x ∷ xs) u = (ground arith, rows_tail x xs xs u.0 (Distinct-rows xs u.1))

module _ {P : Store → Type 0} (c : IsStable Settles P) (unique : (s : Store) → P s → IsUnique s)
    (run_id : String) where
  pub list_jobs-Ensures :
      Ensures P
        (list_jobs run_id)
        (λ jobs s. P s × (jobs ≡ select (λ j. j.run_id == run_id) s.jobs))
  unfolding list_jobs
  list_jobs-Ensures = record { at = λ s p. (p, refl) }

  read-Sync :
      (jobs : List Job) (s : Store)
      → P s
      → jobs ≡ select (λ j. j.run_id == run_id) s.jobs
      → Sync (select (belongs run_id s.jobs) s.job_deps) jobs (states_of jobs) s
  read-Sync jobs s p e = record {
    agrees = states_of-agrees s.jobs jobs (
        rw e (
          All-map _ _ _ (λ j h. h.0)
            (All-select (IsRowOf s.jobs) _ s.jobs (Distinct-rows s.jobs (unique s p)))));
    covers = λ j listed.
        let (there, mine) =
          Elem-of_select (λ j. j.run_id == run_id) s.jobs j (subst (Elem j) e listed) in
        covered run_id s.jobs s.job_deps j there mine;
  }

  pub list_job_deps-Ensures :
      (jobs : List Job)
      → Ensures
          (λ s. P s × (jobs ≡ select (λ j. j.run_id == run_id) s.jobs))
          (list_job_deps run_id)
          (λ deps. Loop P deps jobs (states_of jobs))
  unfolding list_job_deps
  list_job_deps-Ensures jobs = record { at = λ s (p, e). (p, read-Sync jobs s p e) }

  pub advance-Keeps : Keeps P (advance run_id)
  unfolding advance
  advance-Keeps =
      Ensures-bind (λ jobs s. P s × (jobs ≡ select (λ j. j.run_id == run_id) s.jobs)) _ _
        list_jobs-Ensures
        λ jobs.
          Ensures-bind (λ deps. Loop P deps jobs (states_of jobs)) _ _ (list_job_deps-Ensures jobs)
            λ deps.
              Ensures-bind (λ _. P) _ _
                (Ensures-weaken _ (λ s h. h) (λ states s h. h.0)
                  (settle-Ensures c _ run_id deps jobs (states_of jobs)))
                λ states. go (final_state RunState.succeeded states)
    where
      go :
          (o : Option RunState)
          → Keeps P (elim o [ none ↦ return tt | some final ↦ finish_run run_id final ])
      go none = Keeps-return tt
      go (some final) = finish_run-Keeps c run_id final
