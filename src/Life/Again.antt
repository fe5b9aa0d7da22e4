-- ===== src/Life/Again.antt =====
-- Complete twice: after a report that was taken, the same report changes nothing.
use quarry.Base.{
  ◌⊎◌, ◌&&◌, ◌==◌, ℕ-eq, String-eq, ℕ, String, List, [], ◌∷◌, Option, true, false, ◌≡◌, refl, subst,
  arith, Bool-cases, inl, inr, All, All-map, All-of, All-update, All-find, update,
}
use quarry.Store.Types.{
  Job, JobState, JobState-eq, JobState-discrete, running, queued, FailureKind, Detail,
}
use quarry.Store.Monad.{Store, M, ok, err, fenced, ◌>>=◌, guard, return}
use quarry.Store.Rules.{
  Holds, Ensures, Ensures-bind, Ensures-weaken, Ensures-if, Ensures-throw, Keeps-guard, Ensures-tx,
  Keeps-bind,
}
use quarry.Store.Jobs.{is_running_at, update_jobs, finish_job, requeue_job, get_job}
use quarry.Scheduler.Types.{is_terminal}
use quarry.Scheduler.Advance.{advance}
use quarry.Scheduler.Complete.{
  Status, Result, is_reportable, is_timeout, finish, record_failure, record_failed, record_status,
  record_result, may_retry, complete_job, complete,
}
use quarry.Scheduler.Fence.{complete_duplicate, complete_stale}
use quarry.Life.Move.{
  Settles, queue, skip, IsVerdict, succeeded_verdict, failed_verdict, cancelled_verdict,
}
use quarry.Life.Stable.{IsStable, IsStable-mono, IsStable-Both, Both, now-Keeps}
use quarry.Life.Quiet.{Found, get_job-Ensures, enter-Keeps, finished-Keeps, append_event-Keeps}
use quarry.Life.Advancing.{advance-Keeps}
use quarry.Life.Unique.{IsUnique, ids-update}

not_running : (st : JobState) → IsVerdict st → (st == running) ≡ false
unfolding JobState-discrete
not_running st succeeded_verdict = refl
not_running st failed_verdict = refl
not_running st cancelled_verdict = refl

module _ (id : String) (n : ℕ) where
  -- No row runs the attempt.
  abbrev pub IsOver : Store → Type 0
  IsOver s = All (λ k. is_running_at id n k ≡ false) s.jobs

  abbrev Idle : Store → Job → Job → Type 0
  Idle s j k = (k.id ≡ j.id) × (is_running_at id n j ≡ false → is_running_at id n k ≡ false)

  Settles-Idle : (s : Store) (j k : Job) → Settles s j k → Idle s j k
  Settles-Idle s j k (queue time h r) = (refl, λ e. ground arith)
  Settles-Idle s j k (skip time h) = (refl, λ e. ground arith)

  IsUnique-Idle : IsStable Idle IsUnique
  IsUnique-Idle = record {
    quiet = λ s t e g u. rw e u;
    closed = λ p f s h u. rw (ids-update p f s.jobs (All-map _ _ s.jobs (λ j k e. (k e).0) h)) u;
  }

  IsOver-Idle : IsStable Idle IsOver
  IsOver-Idle = record {
    quiet = λ s t e g h. rw e h;
    closed =
        λ p f s g h. All-update _ p f s.jobs (All-map _ _ s.jobs (λ k m old t. (m t).1 old) g) h;
  }

  abbrev Ended : Store → Type 0
  Ended = Both IsUnique IsOver

  Ended-Idle : IsStable Idle Ended
  Ended-Idle = IsStable-Both IsUnique-Idle IsOver-Idle

  Ended-Settles : IsStable Settles Ended
  Ended-Settles = IsStable-mono _ _ Settles-Idle Ended-Idle

  -- An update of the rows that run the attempt, which takes them out of it.
  over_after :
      (f : Job → Job) (js : List Job)
      → ((j : Job) → is_running_at id n (f j) ≡ false)
      → All (λ k. is_running_at id n k ≡ false) (update (is_running_at id n) f js)
  unfolding update
  over_after f [] h = tt
  over_after f (j ∷ js) h = elim (Bool-cases (is_running_at id n j)) [
    | inl e ↦ rw e (h j, over_after f js h)
    | inr e ↦ rw e (e, over_after f js h)
  ]

  update-Ended :
      (f : Job → Job)
      → ((j : Job) → is_running_at id n (f j) ≡ false)
      → ((j : Job) → (f j).id ≡ j.id)
      → Ensures IsUnique (update_jobs (is_running_at id n) f) (λ _. Ended)
  unfolding update_jobs
  update-Ended f h i = record {
    at = λ s u. (
      rw (ids-update (is_running_at id n) f s.jobs (All-of s.jobs λ j e. i j)) u,
      over_after f s.jobs h,
    );
  }

  finish_job-Ended :
      (st : JobState) (kind : Option FailureKind) (code : _) (msg : String)
      → IsVerdict st
      → Ensures IsUnique (finish_job id n st kind code msg) (λ _. Ended)
  unfolding finish_job
  finish_job-Ended st kind code msg v =
      Ensures-bind (λ _. IsUnique) _ _ (now-Keeps IsUnique-Idle)
        λ time. update-Ended _ (λ j. ground (arith, not_running st v)) (λ j. refl)

  requeue_job-Ended : (msg : String) → Ensures IsUnique (requeue_job id n msg) (λ _. Ended)
  unfolding requeue_job
  requeue_job-Ended msg =
      Ensures-bind (λ _. IsUnique) _ _ (now-Keeps IsUnique-Idle)
        λ time. update-Ended _ (λ j. ground arith) (λ j. refl)

module _ (job : Job) (n : ℕ) (res : Result) where
  abbrev After : {A : Type 0} → M A → Type 0
  After m = Ensures IsUnique m (λ _. Ended job.id n)

  finish-Ended :
      (st : JobState) (kind : Option FailureKind) (msg type : String)
      (detail : List (String × Detail))
      → IsVerdict st
      → After (finish job n res st kind msg type detail)
  finish-Ended st kind msg type detail v =
      let c = Ended-Idle job.id n in
      Ensures-bind (λ _. Ended job.id n) _ _ (finish_job-Ended job.id n st kind _ msg v)
        λ _.
          Keeps-bind _ _ (now-Keeps c)
            λ time. Keeps-bind _ _ (finished-Keeps c st _ time) λ _. append_event-Keeps c _ _ _ _

  record_failure-Ended : After (record_failure job n res)
  record_failure-Ended =
      let c = Ended-Idle job.id n in
      Ensures-if (may_retry job n res) _ _
        (λ _.
          Ensures-bind (λ _. Ended job.id n) _ _ (requeue_job-Ended job.id n _)
            λ _. Keeps-bind _ _ (enter-Keeps c queued) λ _. append_event-Keeps c _ _ _ _)
        (λ _. finish-Ended _ _ _ _ _ failed_verdict)

  record_failed-Ended : (k : FailureKind) → After (record_failed job n res k)
  record_failed-Ended FailureKind.cancelled =
      Ensures-if (is_timeout job.cancel_reason) _ _ (λ _. finish-Ended _ _ _ _ _ failed_verdict)
        (λ _. finish-Ended _ _ _ _ _ cancelled_verdict)
  record_failed-Ended _ = record_failure-Ended

  record_status-Ended : (st : Status) → After (record_status job n res st)
  record_status-Ended Status.succeeded = finish-Ended _ _ _ _ _ succeeded_verdict
  record_status-Ended _ = record_failed-Ended res.failure_kind

  record_result-Ended : After (record_result job n res)
  unfolding record_result
  record_result-Ended = record_status-Ended res.status

  -- After a report that is taken, the row that is returned stands in the table, and does not run the attempt.
  abbrev Told : Job → Store → Type 0
  Told j s = Found job.id j s × (is_running_at job.id n j ≡ false)

  report-Told :
      Ensures IsUnique
        (record_result job n res >>= λ _. advance job.run_id >>= λ _. get_job job.id)
        Told
  report-Told =
      Ensures-bind (λ _. Ended job.id n) _ _ record_result-Ended
        λ _.
          Ensures-bind (λ _. Ended job.id n) _ _
            (advance-Keeps (Ended-Settles job.id n) (λ s p. p.0) job.run_id)
            λ _.
              Ensures-weaken _ (λ s p. p) (λ j s q. (q.1, (All-find _ _ s.jobs j q.1 q.0.1).0))
                (get_job-Ensures (Ended job.id n) job.id)

-- What is left by a report that is taken: the row under the id, which does not run the attempt.
abbrev pub Taken : String → ℕ → Job → Store → Type 0
Taken id n j s = Found id j s × (is_running_at id n j ≡ false)

-- The row was read before, so its id is the one of the request.
complete_job-Taken :
    (id : String) (n : ℕ) (res : Result) (job : Job)
    → Ensures (λ s. IsUnique s × Found id job s) (complete_job job n res) (Taken id n)
unfolding complete_job return
complete_job-Taken id n res job =
    Ensures-if (job.state == running && job.attempt == n) _ _
      (λ _. record {
        at = λ s p.
            subst
              (λ i.
                Holds (Taken i n)
                  ((record_result job n res >>= λ _. advance job.run_id >>= λ _. get_job job.id) s))
              (ground
                (arith, (All-find (λ _. Unit {0}) _ s.jobs job p.1 (All-of s.jobs λ k. tt)).1))
              ((report-Told job n res).at s p.0);
      })
      (λ e.
        Ensures-if (job.attempt == n && is_terminal job.state) _ _
          (λ _. record { at = λ s p. (p.1, ground (arith, e)) }) (λ _. Ensures-throw _ _ _))

pub complete-Taken :
    (id : String) (n : ℕ) (res : Result) → Ensures IsUnique (complete id n res) (Taken id n)
unfolding complete
complete-Taken id n res =
    Ensures-bind (λ _. IsUnique) _ _ (Keeps-guard _ _)
      λ _. Ensures-tx _ (
        Ensures-bind (λ job s. IsUnique s × Found id job s) _ _ (get_job-Ensures IsUnique id)
          λ job. complete_job-Taken id n res job)

-- A report that is not well formed is never taken.
taken_well :
    (id : String) (n : ℕ) (res : Result) (j : Job) (s t : Store)
    → complete id n res s ≡ ok j t
    → is_reportable res.status res.failure_kind ≡ true
unfolding complete ◌>>=◌ guard
taken_well id n res j s t e = elim (Bool-cases (is_reportable res.status res.failure_kind)) [
  | inl b ↦ b
  | inr b ↦ absurd (ground (arith, e, b))
]

-- When job ids are distinct: after a report was taken, the same report, when it comes again with no change
-- in between, changes nothing; it is answered with the same row, or it is refused as fenced.
pub complete-again :
    (id : String) (n : ℕ) (res : Result) (j : Job) (s t : Store)
    → IsUnique s
    → complete id n res s ≡ ok j t
    → (complete id n res t ≡ ok j t) ⊎ (complete id n res t ≡ err fenced t)
complete-again id n res j s t u e =
    let k : Taken id n j t = subst (Holds (Taken id n)) e ((complete-Taken id n res).at s u) in
    let r = taken_well id n res j s t e in
    elim (Bool-cases (j.attempt == n && is_terminal j.state)) [
      | inl b ↦ inl (complete_duplicate id n res j t k.0 r (ground (arith, b)) (ground (arith, b)))
      | inr b ↦
          let same : j.id ≡ id =
            ground (arith, (All-find (λ _. Unit {0}) _ t.jobs j k.0 (All-of t.jobs λ x. tt)).1) in
          inr (complete_stale id n res j t k.0 r (ground (arith, b, k.1, same)))
    ]
