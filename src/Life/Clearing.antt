-- ===== src/Life/Clearing.antt =====
-- CancelRun of internal/scheduler/scheduler.go: no job of the run is left that could still start.
use quarry.Base.{
  ℕ-eq, ℕ, String, List, [], ◌∷◌, Option, true, ◌≡◌, refl, sym, subst, ◌∙◌, ◌⊎◌, inl, inr, arith,
  Bool-cases, All, All-map, All-of, All-update, update, ◌==◌, ◌||◌, String-eq,
}
use quarry.Store.Types.{
  Job, JobState, JobState-eq, pending, queued, running, succeeded, failed, cancelled, skipped,
  CancelReason, RunState-eq,
}
use quarry.Store.Monad.{Store, M}
use quarry.Store.Rules.{
  Ensures, Keeps, Ensures-bind, Ensures-weaken, Ensures-return, Keeps-bind, Keeps-if, Keeps-return,
}
use quarry.Store.Jobs.{is_unstarted, to_cancelled, update_jobs, cancel_job, request_job_cancel}
use quarry.Scheduler.Types.{enter}
use quarry.Scheduler.Cancel.{cancel_unstarted, cancel_by_state, cancel_one, cancel_jobs}
use quarry.Life.Move.{Settles, queue, skip}
use quarry.Life.Stable.{IsStable, Both, IsStable-Both, now-Keeps, update_jobs-Keeps}
use quarry.Life.Quiet.{append_event-Keeps, enter-Keeps}
use quarry.Life.Unique.{IsUnique, ids-update}

abbrev pub CanStart : JobState → Type 0
CanStart pending = Unit {0}
CanStart queued = Unit {0}
CanStart _ = ⊥

-- A row change that makes no job startable.
abbrev pub Calm : Store → Job → Job → Type 0
Calm s j k = (k.id ≡ j.id) × (k.run_id ≡ j.run_id) × (CanStart k.state → CanStart j.state)

pub Settles-Calm : (s : Store) (j k : Job) → Settles s j k → Calm s j k
Settles-Calm s j k (queue time h r) = (refl, refl, λ w. subst CanStart (sym h) tt)
Settles-Calm s j k (skip time h) = (refl, refl, λ w. elim w [ ])

pub IsUnique-Calm : IsStable Calm IsUnique
IsUnique-Calm = record {
  quiet = λ s t e g u. rw e u;
  closed = λ p f s h u. rw (ids-update p f s.jobs (All-map _ _ s.jobs (λ j k e. (k e).0) h)) u;
}

-- A startable job of the list has the id.
abbrev pub Listed : List Job → String → Type 0
Listed [] id = ⊥
Listed (j ∷ js) id = ((j.id ≡ id) × CanStart j.state) ⊎ Listed js id

module _ (run_id : String) where
  abbrev pub Covered : List Job → Job → Type 0
  Covered js k = k.run_id ≡ run_id → CanStart k.state → Listed js k.id

  -- The jobs of the run that can start are still to come in the list.
  abbrev pub Remaining : List Job → Store → Type 0
  Remaining js s = All (Covered js) s.jobs

  Remaining-Calm : (js : List Job) → IsStable Calm (Remaining js)
  Remaining-Calm js = record {
    quiet = λ s t e g h. rw e h;
    closed = λ p f s g h.
        All-update (Covered js) p f s.jobs
          (All-map _ _ s.jobs
            (λ k m old t r w. subst (Listed js) (sym (m t).0) (old (sym (m t).1 ∙ r) ((m t).2 w)))
            g)
          h;
  }

  abbrev pub Left : List Job → Store → Type 0
  Left js = Both IsUnique (Remaining js)

  pub Left-Calm : (js : List Job) → IsStable Calm (Left js)
  Left-Calm js = IsStable-Both IsUnique-Calm (Remaining-Calm js)

  startable : (st : JobState) → CanStart st → (st == pending || st == queued) ≡ true
  startable pending w = ground arith
  startable queued w = ground arith
  startable running w = elim w [ ]
  startable succeeded w = elim w [ ]
  startable failed w = elim w [ ]
  startable cancelled w = elim w [ ]
  startable skipped w = elim w [ ]

  -- The job that is cancelled is no longer to come.
  cancels_head :
      (j : Job) (js : List Job) (msg : Option String) (time : ℕ) (ks : List Job)
      → All (Covered (j ∷ js)) ks
      → All (Covered js) (update (is_unstarted j.id) (to_cancelled msg time) ks)
  unfolding update
  cancels_head j js msg time [] h = tt
  cancels_head j js msg time (k ∷ ks) h = elim (Bool-cases (is_unstarted j.id k)) [
    | inl e ↦ rw e ((λ r w. elim w [ ]), cancels_head j js msg time ks h.1)
    | inr e ↦
        let still : Covered js k = λ r w. elim (h.0 r w) [
          | inl a ↦ absurd (ground (arith, e, a.0, startable k.state w))
          | inr b ↦ b
        ] in
        rw e (still, cancels_head j js msg time ks h.1)
  ]

  cancel_job-Remaining :
      (j : Job) (js : List Job) (msg : String)
      → Ensures (Left (j ∷ js)) (cancel_job j.id msg) (λ _. Left js)
  unfolding cancel_job update_jobs
  cancel_job-Remaining j js msg =
      Ensures-bind (λ _. Left (j ∷ js)) _ _ (now-Keeps (Left-Calm (j ∷ js)))
        λ time. record {
          at = λ s (u, h). (
            IsUnique-Calm.closed _ _ s (All-of s.jobs (λ k t. (refl, refl, λ w. elim w [ ]))) u,
            cancels_head j js _ time s.jobs h,
          );
        }

  cancel_unstarted-Remaining :
      (j : Job) (js : List Job) → Ensures (Left (j ∷ js)) (cancel_unstarted run_id j) (λ _. Left js)
  unfolding enter
  cancel_unstarted-Remaining j js =
      Ensures-bind (λ _. Left js) _ _ (cancel_job-Remaining j js _)
        λ done.
          Keeps-if done _ _
            (Keeps-bind _ _ (enter-Keeps (Left-Calm js) _)
              λ _. append_event-Keeps (Left-Calm js) _ _ _ _)
            (Keeps-return tt)

  request_job_cancel-Remaining :
      (id : String) (js : List Job) (why : CancelReason)
      → Keeps (Left js) (request_job_cancel id why)
  unfolding request_job_cancel
  request_job_cancel-Remaining id js why =
      Keeps-bind _ _ (now-Keeps (Left-Calm js)) λ time.
        update_jobs-Keeps (Left-Calm js) _ _ λ s _. All-of s.jobs λ k t. (refl, refl, λ w. w)

  skips_head :
      (j : Job) (js : List Job) {A : Type 0} (m : M A)
      → (CanStart j.state → ⊥)
      → Keeps (Left js) m
      → Ensures (Left (j ∷ js)) m (λ _. Left js)
  skips_head j js m n k =
      Ensures-weaken m
        (λ s (u, h). (
          u,
          All-map _ _ s.jobs (λ x c r w. elim (c r w) [ inl a ↦ absurd (n a.1) | inr b ↦ b ]) h,
        ))
        (λ _ s h. h) k

  cancel_by_state-Remaining :
      (j : Job) (js : List Job) (st : JobState)
      → (CanStart j.state → CanStart st)
      → Ensures (Left (j ∷ js)) (cancel_by_state run_id j st) (λ _. Left js)
  cancel_by_state-Remaining j js pending n = cancel_unstarted-Remaining j js
  cancel_by_state-Remaining j js queued n = cancel_unstarted-Remaining j js
  cancel_by_state-Remaining j js running n = skips_head j js _ n (
      Keeps-bind _ _ (request_job_cancel-Remaining j.id js _)
        λ done. Keeps-if done _ _ (append_event-Keeps (Left-Calm js) _ _ _ _) (Keeps-return tt))
  cancel_by_state-Remaining j js succeeded n = skips_head j js _ n (Keeps-return tt)
  cancel_by_state-Remaining j js failed n = skips_head j js _ n (Keeps-return tt)
  cancel_by_state-Remaining j js cancelled n = skips_head j js _ n (Keeps-return tt)
  cancel_by_state-Remaining j js skipped n = skips_head j js _ n (Keeps-return tt)

  pub cancel_jobs-Remaining :
      (js : List Job) → Ensures (Left js) (cancel_jobs run_id js) (λ _. Left [])
  unfolding cancel_jobs cancel_one
  cancel_jobs-Remaining [] = Ensures-return (λ _. Left []) tt
  cancel_jobs-Remaining (j ∷ js) =
      Ensures-bind (λ _. Left js) _ _ (cancel_by_state-Remaining j js j.state (λ w. w))
        λ _. cancel_jobs-Remaining js
