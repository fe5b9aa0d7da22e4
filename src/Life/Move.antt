-- ===== src/Life/Move.antt =====
-- The job state machine: one constructor for each guarded UPDATE of internal/store/jobs.go. A store
-- stands beside each move, since a job is queued only where its needs have succeeded.
use quarry.Base.{
  some, find, ◌==◌, String-eq, All, ℤ, ℕ, ◌≤◌, ◌<◌, String, ◌≡◌, ◌≢◌, refl, sym, subst, Option,
  none, ◌⊎◌, arith,
}
use quarry.Store.Types.{
  Job, JobDep, JobState, pending, queued, running, succeeded, failed, cancelled, skipped,
  FailureKind, CancelReason,
}
use quarry.Store.Monad.{Store, int64}
use quarry.Store.Jobs.{
  to_running, with_lease, to_finished, to_requeued, to_queued, to_skipped, to_cancelled,
  with_cancel,
}

-- The states of a finished attempt.
pub data IsVerdict : JobState → Type 0 where
  succeeded_verdict : IsVerdict succeeded
  failed_verdict : IsVerdict failed
  cancelled_verdict : IsVerdict cancelled

-- The job under an id has succeeded.
abbrev pub IsDone : Store → String → Type 0
IsDone s id = (k : Job) × (find (λ (l : Job). l.id == id) s.jobs ≡ some k) × (k.state ≡ succeeded)

-- All needs of a job have succeeded.
abbrev pub IsReady : Store → Job → Type 0
IsReady s j = All (λ (d : JobDep). d.job_id ≡ j.id → IsDone s d.needs_job_id) s.job_deps

-- How advance moves a row: it queues a job that is ready, or skips it.
pub data Settles (s : Store) (j : Job) : Job → Type 0 where
  queue : (time : ℕ) → j.state ≡ pending → IsReady s j → Settles s j (to_queued time j)
  skip : (time : ℕ) → j.state ≡ pending → Settles s j (to_skipped time j)

-- A row that leaves the state running.
pub data Ends (s : Store) (j : Job) : Job → Type 0 where
  settle : {k : Job} → Settles s j k → Ends s j k
  finish :
      (st : JobState) (kind : Option FailureKind) (code : Option ℤ) (msg : Option String) (time : ℕ)
      → IsVerdict st
      → j.state ≡ running
      → Ends s j (to_finished st kind code msg time j)
  requeue :
      (msg : Option String) (time : ℕ)
      → j.state ≡ running
      → j.attempt < j.max_attempts
      → int64 j.cancel_requested_at ≡ 0
      → Ends s j (to_requeued msg time j)

pub data Move (s : Store) (j : Job) : Job → Type 0 where
  end : {k : Job} → Ends s j k → Move s j k
  claim :
      (runner : String) (lease time : ℕ)
      → j.state ≡ queued
      → Move s j (to_running runner lease time j)
  extend : (lease : ℕ) → j.state ≡ running → Move s j (with_lease lease j)
  cancel :
      (msg : Option String) (time : ℕ)
      → (j.state ≡ pending) ⊎ (j.state ≡ queued)
      → Move s j (to_cancelled msg time j)
  ask :
      (why : CancelReason) (time : ℕ)
      → j.state ≡ running
      → j.cancel_requested_at ≡ none
      → Move s j (with_cancel time why j)

-- Any number of moves. The store beside each is any store, so they do not tell when a job was ready.
pub data Moves (j : Job) : Job → Type 0 where
  stay : Moves j j
  then : {s : Store} {k l : Job} → Moves j k → Move s k l → Moves j l

abbrev pub IsFinal : JobState → Type 0
IsFinal succeeded = Unit {0}
IsFinal failed = Unit {0}
IsFinal cancelled = Unit {0}
IsFinal skipped = Unit {0}
IsFinal _ = ⊥

pub Move-source : {s : Store} {j k : Job} → Move s j k → ¬ IsFinal j.state
Move-source (end (settle (queue time h r))) f = ground (arith, h)
Move-source (end (settle (skip time h))) f = ground (arith, h)
Move-source (end (finish st kind code msg time v h)) f = ground (arith, h)
Move-source (end (requeue msg time h a c)) f = ground (arith, h)
Move-source (claim runner lease time h) f = ground (arith, h)
Move-source (extend lease h) f = ground (arith, h)
Move-source (cancel msg time h) f = ground (arith, h)
Move-source (ask why time h c) f = ground (arith, h)

pub Move-id : {s : Store} {j k : Job} → Move s j k → k.id ≡ j.id
Move-id (end (settle (queue time h r))) = refl
Move-id (end (settle (skip time h))) = refl
Move-id (end (finish st kind code msg time v h)) = refl
Move-id (end (requeue msg time h a c)) = refl
Move-id (claim runner lease time h) = refl
Move-id (extend lease h) = refl
Move-id (cancel msg time h) = refl
Move-id (ask why time h c) = refl

-- What holds of every row. A queued job has an attempt left and no cancel request; a running one
-- has used at most max_attempts; only running rows hold a lease, and each of those has a runner.
pub record IsSound (j : Job) : Type 0 where
  pub bounded : j.attempt ≤ j.max_attempts
  pub waiting : (j.state ≡ pending) ⊎ (j.state ≡ queued) → j.attempt < j.max_attempts
  pub clear : (j.state ≡ pending) ⊎ (j.state ≡ queued) → int64 j.cancel_requested_at ≡ 0
  pub started : j.state ≡ running → 0 < j.attempt
  pub leased : j.state ≡ running → j.lease_expires_at ≢ none
  pub owned : j.state ≡ running → j.runner_id ≢ none
  pub released : ¬ (j.state ≡ running) → j.lease_expires_at ≡ none

pub Move-IsSound : {s : Store} {j k : Job} → Move s j k → IsSound j → IsSound k
Move-IsSound (end (settle (queue time h r))) v = ground arith
Move-IsSound (end (settle (skip time h))) v = ground arith
Move-IsSound (end (finish st kind code msg time succeeded_verdict h)) v = ground arith
Move-IsSound (end (finish st kind code msg time failed_verdict h)) v = ground arith
Move-IsSound (end (finish st kind code msg time cancelled_verdict h)) v = ground arith
Move-IsSound (end (requeue msg time h a c)) v = ground arith
Move-IsSound (claim runner lease time h) v = ground arith
Move-IsSound (extend lease h) v = ground arith
Move-IsSound (cancel msg time h) v = ground arith
Move-IsSound (ask why time h c) v = ground arith

-- What no sequence of moves changes, and the attempt, which never falls.
pub record IsSame (j k : Job) : Type 0 where
  pub same_id : k.id ≡ j.id
  pub same_run : k.run_id ≡ j.run_id
  pub same_spec : k.spec_json ≡ j.spec_json
  pub same_bound : k.max_attempts ≡ j.max_attempts
  pub grows : j.attempt ≤ k.attempt

Move-IsSame : {s : Store} {j k : Job} → Move s j k → IsSame j k
Move-IsSame (end (settle (queue time h r))) = ground arith
Move-IsSame (end (settle (skip time h))) = ground arith
Move-IsSame (end (finish st kind code msg time v h)) = ground arith
Move-IsSame (end (requeue msg time h a c)) = ground arith
Move-IsSame (claim runner lease time h) = ground arith
Move-IsSame (extend lease h) = ground arith
Move-IsSame (cancel msg time h) = ground arith
Move-IsSame (ask why time h c) = ground arith

pub Moves-IsSame : {j k : Job} → Moves j k → IsSame j k
Moves-IsSame stay = ground arith
Moves-IsSame (then r m) = ground (arith, Moves-IsSame r, Move-IsSame m)

-- A row in a final state never moves again.
pub Moves-final : {j k : Job} → Moves j k → IsFinal j.state → k ≡ j
Moves-final stay f = refl
Moves-final (then r m) f =
    let e = Moves-final r f in absurd (Move-source m (subst (λ l. IsFinal l.state) (sym e) f))

pub Moves-IsSound : {j k : Job} → Moves j k → IsSound j → IsSound k
Moves-IsSound stay v = v
Moves-IsSound (then r m) v = Move-IsSound m (Moves-IsSound r v)

pub Moves-trans : {j k l : Job} → Moves j k → Moves k l → Moves j l
Moves-trans r stay = r
Moves-trans r (then q m) = then (Moves-trans r q) m
