-- ===== src/Scheduler/Directives.antt =====
-- Heartbeat of internal/scheduler/scheduler.go: what a runner is told of each attempt.
use native.Mathlib.Decide.{ℕ_discrete}
use quarry.Base.{
  suc, subst, All-of, All-find, ℕ, ◌+◌, String, List, [], ◌∷◌, some, Bool, true, false, ◌≡◌, ◌≢◌,
  refl, ◌∙◌, arith, Bool-cases, inl, inr, All, ap, find, select, update, length, ◌==◌, ℕ-eq,
  String-eq, if◌then◌else◌,
}
use quarry.Store.Types.{Job, running}
use quarry.Store.Monad.{M, Store, ok, ◌>>=◌, int64, now, return}
use quarry.Store.Jobs.{is_held, with_lease, update_jobs, extend_lease, get_job}
use quarry.Scheduler.Types.{Scheduler}
use quarry.Scheduler.Heartbeat.{JobRef, Order, continue, cancel, abort, Directive, direct}
use quarry.Scheduler.Fence.{get_job-eq}
use quarry.Store.Rules.{bind-ok}
use quarry.Life.Quiet.{Found}
use quarry.Life.Unique.{Distinct, ids, IsUnique}
use quarry.Life.Sync.{find-update}

-- A row test that only rows with the id pass.
abbrev pub OnlyAt : String → (Job → Bool) → Type 0
OnlyAt id p = (k : Job) → p k ≡ true → k.id ≡ id

no_match :
    (id : String) (p : Job → Bool) (js : List Job)
    → OnlyAt id p
    → All (λ x. x ≢ id) (ids js)
    → select p js ≡ []
unfolding select
no_match id p [] o h = refl
no_match id p (j ∷ js) o (n, h) = elim (Bool-cases (p j)) [
  | inl e ↦ absurd (n (o j e))
  | inr e ↦ rw e (no_match id p js o h)
]

-- Ids are distinct, so whether one row changes is read off the row under the id.
pub matches_one :
    (id : String) (p : Job → Bool) (j : Job) (js : List Job)
    → OnlyAt id p
    → Distinct (ids js)
    → find (λ (k : Job). k.id == id) js ≡ some j
    → (length (select p js) == 1) ≡ p j
unfolding select find ℕ_discrete
matches_one id p j [] o d e = cc e
matches_one id p j (x ∷ js) o (n, d) e = elim (Bool-cases (x.id == id)) [
  | inl t ↦
      let same : x ≡ j = ground (arith, e, t) in
      let rest : select p js ≡ [] =
        no_match id p js o (subst (λ i. All (λ y. y ≢ i) (ids js)) (ground (arith, t)) n) in
      subst (λ y. (length (select p (x ∷ js)) == 1) ≡ p y) same
        (elim (Bool-cases (p x)) [ inl b ↦ rw (b, rest) refl | inr b ↦ rw (b, rest) refl ])
  | inr t ↦
      let no : p x ≡ false = ground (arith, o x, t) in
      rw no (matches_one id p j js o d (rw (t, find) at e))
]

-- What a runner is told of an attempt, read off the row of its job.
abbrev order_for : String → JobRef → Job → Order
order_for runner ref j =
    if is_held ref.job_id ref.attempt runner j
    then (if int64 j.cancel_requested_at == 0 then continue else cancel)
    else abort

abbrev renewed : String → JobRef → ℕ → Job → Job
renewed runner ref lease j =
    if is_held ref.job_id ref.attempt runner j then with_lease lease j else j

is_held-id : (id runner : String) (n : ℕ) → OnlyAt id (is_held id n runner)
is_held-id id runner n k e = ground (arith, e)

module _ (sched : Scheduler) (runner : String) (ref : JobRef) where
  abbrev test : Job → Bool
  test = is_held ref.job_id ref.attempt runner

  abbrev lease_at : Store → ℕ
  lease_at s = s.clock 0 + sched.ttl

  -- The store after the update.
  abbrev extended : Store → Store
  extended s = record s {
    clock = λ n. s.clock (suc n);
    jobs = update test (with_lease (lease_at s)) s.jobs;
  }

  abbrev answer : Order → Directive
  answer o = record { job_id = ref.job_id; attempt = ref.attempt; directive = o }

  abbrev reply : Bool → M Directive
  reply held =
      if held
      then (do
        job ← get_job ref.job_id
        return (answer (if int64 job.cancel_requested_at == 0 then continue else cancel)))
      else return (answer abort)

  extended-Found :
      (j : Job) (s : Store)
      → Found ref.job_id j s
      → Found ref.job_id (renewed runner ref (lease_at s) j) (extended s)
  extended-Found j s e =
      find-update test (with_lease (lease_at s)) ref.job_id s.jobs j (All-of s.jobs (λ k t. refl)) e

  reply-held :
      (held : Bool) (j k : Job) (t : Store)
      → k.cancel_requested_at ≡ j.cancel_requested_at
      → Found ref.job_id k t
      → reply held t
        ≡ ok
            (answer (
              if held
              then (if int64 j.cancel_requested_at == 0 then continue else cancel)
              else abort))
            t
  unfolding return
  reply-held true j k t c e =
      bind-ok (get_job ref.job_id)
        (λ job. return (answer (if int64 job.cancel_requested_at == 0 then continue else cancel))) t
        (get_job-eq ref.job_id k t e)
      ∙ ap (λ r. ok (answer (if int64 r == 0 then continue else cancel)) t) c
  reply-held false j k t c e = refl

  direct-order_for :
      (j : Job) (s : Store)
      → IsUnique s
      → Found ref.job_id j s
      → (t : Store) × (direct sched runner ref s ≡ ok (answer (order_for runner ref j)) t)
        × Found ref.job_id (renewed runner ref (lease_at s) j) t
  unfolding direct extend_lease update_jobs ◌>>=◌ now
  direct-order_for j s u e = (
    extended s,
    ap (λ b. reply b (extended s))
          (matches_one ref.job_id test j s.jobs (is_held-id ref.job_id runner ref.attempt) u e)
        ∙ reply-held (test j) j _ (extended s) (ground arith) (extended-Found j s e),
    extended-Found j s e,
  )

  -- The job runs the attempt, on the runner.
  abbrev pub RunsHere : Job → Type 0
  RunsHere j = (j.state ≡ running) × (j.attempt ≡ ref.attempt) × (j.runner_id ≡ some runner)

  -- The order and the row after the call, for the row before it and the end of a new lease.
  pub data Told (j : Job) (lease : ℕ) : Order → Job → Type 0 where
    renewed_lease :
        RunsHere j
        → int64 j.cancel_requested_at ≡ 0
        → Told j lease continue (record j { lease_expires_at = some lease })
    asked_to_stop :
        RunsHere j
        → int64 j.cancel_requested_at ≢ 0
        → Told j lease cancel (record j { lease_expires_at = some lease })
    gone : ¬ RunsHere j → Told j lease abort j

  told_by :
      (j : Job) (lease : ℕ)
      → j.id ≡ ref.job_id
      → Told j lease (order_for runner ref j) (renewed runner ref lease j)
  told_by j lease same = elim (Bool-cases (is_held ref.job_id ref.attempt runner j)) [
    | inl h ↦
        let held : RunsHere j = (ground (arith, h), ground (arith, h), ground (arith, h)) in
        elim (Bool-cases (int64 j.cancel_requested_at == 0)) [
          | inl c ↦ rw (h, c) (renewed_lease held (ground (arith, c)))
          | inr c ↦ rw (h, c) (asked_to_stop held (ground (arith, c)))
        ]
    | inr h ↦ rw h (gone (λ k. ground (arith, h, k, same)))
  ]

  -- Job ids are distinct, and the job of the listed attempt is in the table. A heartbeat always answers. If
  -- the job runs this attempt on this runner, its lease then ends one time-to-live after the clock's
  -- reading and nothing else of the row changes, and the answer is continue, or cancel if a cancel is
  -- requested; else the answer is abort and the row is as it was.
  pub direct-Told :
      (j : Job) (s : Store)
      → IsUnique s
      → Found ref.job_id j s
      → (t : Store) × (o : Order) × (k : Job) × (direct sched runner ref s
          ≡ ok (record { job_id = ref.job_id; attempt = ref.attempt; directive = o }) t)
        × Found ref.job_id k t
        × Told j (s.clock 0 + sched.ttl) o k
  direct-Told j s u e =
      let (t, told, row) = direct-order_for j s u e in
      let same : j.id ≡ ref.job_id =
        ground (arith, (All-find (λ _. Unit {0}) _ s.jobs j e (All-of s.jobs λ k. tt)).1) in
      (
        t,
        order_for runner ref j,
        renewed runner ref (lease_at s) j,
        told,
        row,
        told_by j (lease_at s) same,
      )
