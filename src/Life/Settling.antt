-- ===== src/Life/Settling.antt =====
-- One step of advance: a job whose needs have all succeeded is queued, one with a need that failed is
-- skipped, and the loop invariant stays.
use quarry.Base.{
  ℕ, String, List, some, Bool, true, ◌≡◌, refl, arith, All-of, All-map, String-eq, update,
}
use quarry.Store.Types.{Job, JobState, JobState-eq, queued, skipped, JobDep}
use quarry.Store.Monad.{Store}
use quarry.Store.Rules.{Ensures, Ensures-return, Ensures-throw, Ensures-bind, Keeps-guard}
use quarry.Store.Jobs.{
  is_pending, to_queued, to_skipped, transition_to, transition_pending_job, update_jobs,
}
use quarry.Scheduler.Advance.{States, set_state, next_state, move, needs_of, is_pending_in}
use quarry.Life.Move.{Settles, queue, skip, IsReady}
use quarry.Life.Stable.{IsStable, IsStable-Never, Never, Guarded, now-Keeps}
use quarry.Life.Quiet.{append_event-Keeps, enter-Keeps}
use quarry.Life.Sync.{Sync, Elem, agrees-move, is_pending_in-eq, next_queued-IsReady}

-- P, and the loop invariant.
abbrev pub Loop : (Store → Type 0) → List JobDep → List Job → States → Store → Type 0
Loop P deps jobs states s = P s × Sync deps jobs states s

Sync-quiet :
    (deps : List JobDep) (jobs : List Job) (states : States) (s t : Store)
    → t.jobs ≡ s.jobs
    → t.job_deps ≡ s.job_deps
    → Sync deps jobs states s
    → Sync deps jobs states t
Sync-quiet deps jobs states s t e g y = record { agrees = rw e y.agrees; covers = rw g y.covers }

update_jobs-Ensures :
    {P Q : Store → Type 0} (p : Job → Bool) (f : Job → Job)
    → ((s : Store) → P s → Q (record s { jobs = update p f s.jobs }))
    → Ensures P (update_jobs p f) (λ _. Q)
unfolding update_jobs
update_jobs-Ensures p f h = record { at = h }

module _ {P : Store → Type 0} (c : IsStable Settles P) (deps : List JobDep) (jobs : List Job) where
  pub Loop-stable : (states : States) → IsStable Never (Loop P deps jobs states)
  Loop-stable states =
      IsStable-Never λ s t e g (p, y). (c.quiet s t e g p, Sync-quiet deps jobs states s t e g y)

  module _ (states : States) (j : Job) (listed : Elem j jobs)
      (waits : is_pending_in states j.id ≡ true) where
    moved :
        (next : JobState) (f : Job → Job) (s : Store)
        → ((k : Job) → ((f k).id ≡ k.id) × ((f k).state ≡ next))
        → Guarded Settles (is_pending j.id) f s
        → Loop P deps jobs states s
        → Loop P deps jobs
            (set_state states j.id next)
            (record s { jobs = update (is_pending j.id) f s.jobs })
    moved next f s good g (p, y) = (
      c.closed (is_pending j.id) f s g p,
      record {
        agrees =
            agrees-move states j.id next f s.jobs good (is_pending_in-eq states j.id waits)
              y.agrees;
        covers = y.covers;
      },
    )

    ready :
        (s : Store) (k : Job)
        → Sync deps jobs states s
        → next_state states (needs_of deps j.id) ≡ some queued
        → is_pending j.id k ≡ true
        → IsReady s k
    ready s k y n t =
        All-map _ _ s.job_deps (λ d done e. done (ground (arith, e, t)))
          (next_queued-IsReady deps states s j y.agrees (y.covers j listed) n)

    transition_to-Ensures :
        (next : JobState) (time : ℕ)
        → next_state states (needs_of deps j.id) ≡ some next
        → Ensures
            (Loop P deps jobs states)
            (transition_to j.id next time)
            (λ _. Loop P deps jobs (set_state states j.id next))
    transition_to-Ensures queued time n = update_jobs-Ensures _ _ λ s (p, y).
        moved queued (to_queued time) s (λ k. (refl, refl))
          (All-of s.jobs λ k t. queue time (ground (arith, t)) (ready s k y n t)) (p, y)
    transition_to-Ensures skipped time n = update_jobs-Ensures _ _ λ s h.
        moved skipped (to_skipped time) s (λ k. (refl, refl))
          (All-of s.jobs λ k t. skip time (ground (arith, t))) h
    transition_to-Ensures _ time n = Ensures-throw _ _ _

    pub move-Ensures :
        (run_id : String) (next : JobState)
        → next_state states (needs_of deps j.id) ≡ some next
        → Ensures (Loop P deps jobs states) (move run_id states j.id next) (Loop P deps jobs)
    unfolding move transition_pending_job
    move-Ensures run_id next n =
        let states' = set_state states j.id next in
        Ensures-bind (λ _. Loop P deps jobs states') _ _
          (Ensures-bind (λ _. Loop P deps jobs states) _ _ (now-Keeps (Loop-stable states))
            λ time. transition_to-Ensures next time n)
          λ done.
            Ensures-bind (λ _. Loop P deps jobs states') _ _ (Keeps-guard done _)
              λ _.
                Ensures-bind (λ _. Loop P deps jobs states') _ _
                  (enter-Keeps (Loop-stable states') next)
                  λ _.
                    Ensures-bind (λ _. Loop P deps jobs states') _ _
                      (append_event-Keeps (Loop-stable states') run_id j.id _ _)
                      λ _. Ensures-return (Loop P deps jobs) states'
