-- ===== src/Agent/Slots.antt =====
-- internal/agent/agent.go, Agent: the poll loop, the capacity slots, the registered attempts, and what a
-- heartbeat's directive does to them.
use quarry.Base.{
  ℕ, suc, ◌-◌, String-eq, ℕ-eq, List, [], ◌∷◌, map, Option, none, some, Bool, true, false, ◌&&◌,
  not, ◌==◌, ltb, find, select, update, if◌then◌else◌,
}
use quarry.Scheduler.Heartbeat.{JobRef, Order, continue, cancel, abort, Directive}
use quarry.Agent.Attempt.{Cause, cancelled, aborted, shut_down}

-- A claimed attempt's goroutine: its number, its key, and the cause that its context has. Each has its own
-- cancel function, for which the number stands.
pub record Running : Type 0 where
  pub id : ℕ
  pub key : JobRef
  pub ended_by : Option Cause

-- The poll loop stands at its select, holds a token while it claims, waits, or has returned.
pub data Poller : Type 0 where
  selecting claiming pausing returned : Poller

-- `tokens` is the number in sem; `active` maps keys to cancel functions.
pub record Agent : Type 0 where
  pub capacity : ℕ
  pub tokens : ℕ
  pub poller : Poller
  pub shut : Bool
  pub jobs : List Running
  pub next_id : ℕ
  pub active : List (JobRef × ℕ)

abbrev pub is_key : JobRef → JobRef → Bool
is_key k l = k.job_id == l.job_id && k.attempt == l.attempt

abbrev pub is_id : ℕ → Running → Bool
is_id n r = r.id == n

-- cancel(cause): only the first cause counts.
abbrev pub end_with : Cause → Running → Running
end_with c r = elim r.ended_by [ none ↦ record r { ended_by = some c } | some d ↦ r ]

abbrev pub remove : ℕ → List Running → List Running
remove n [] = []
remove n (r ∷ rs) = if is_id n r then rs else r ∷ remove n rs

-- The steps of the goroutines. A claim ends in an error, in nothing, or in a job; the others name the
-- goroutine, or the directive.
pub data Step : Type 0 where
  acquire claim_failed claim_empty pause_over shutdown stop : Step
  claim_job : JobRef → Step
  register_attempt stale leave_attempt release : ℕ → Step
  directed : Directive → Step

abbrev pub cause_of : Order → Option Cause
cause_of abort = some aborted
cause_of cancel = some cancelled
cause_of continue = none

module _ (a : Agent) where
  -- start: the slot that the poll loop holds passes to the goroutine.
  abbrev pub start : JobRef → Agent
  start k = record a {
    poller = selecting;
    jobs =
        record { id = a.next_id; key = k; ended_by = if a.shut then some shut_down else none }
        ∷ a.jobs;
    next_id = suc a.next_id;
  }

  abbrev pub cancel_id : Cause → ℕ → Agent
  cancel_id c n = record a { jobs = update (is_id n) (end_with c) a.jobs }

  abbrev pub entry : JobRef → Option (JobRef × ℕ)
  entry k = find (λ (e : JobRef × ℕ). is_key e.0 k) a.active

  abbrev pub cancel_entry : Cause → Option (JobRef × ℕ) → Agent
  cancel_entry c none = a
  cancel_entry c (some (k, n)) = cancel_id c n

  abbrev pub cancel_key : JobRef → Option Cause → Agent
  cancel_key k none = a
  cancel_key k (some c) = cancel_entry c (entry k)

  -- A directive for an attempt that is not registered is ignored.
  unfoldable pub apply : Directive → Agent
  apply d = cancel_key (record { job_id = d.job_id; attempt = d.attempt }) (cause_of d.directive)

  abbrev pub active_refs : List JobRef
  active_refs = map (λ (e : JobRef × ℕ). e.0) a.active

  abbrev pub without : JobRef → List (JobRef × ℕ)
  without k = select (λ (e : JobRef × ℕ). not (is_key e.0 k)) a.active

  abbrev pub enter_job : Option Running → Option Agent
  enter_job none = none
  enter_job (some r) = some (record a { active = (r.key, r.id) ∷ without r.key })

  abbrev pub leave_job : Option Running → Option Agent
  leave_job none = none
  leave_job (some r) = some (record a { active = without r.key })

  abbrev pub release_job : ℕ → Option Running → Option Agent
  release_job n none = none
  release_job n (some r) = some (record a { tokens = a.tokens - 1; jobs = remove n a.jobs })

  abbrev pub after_claim : Poller → Poller → Option Agent
  after_claim claiming p = some (record a { tokens = a.tokens - 1; poller = p })
  after_claim q p = none

  abbrev pub take_slot : Poller → Option Agent
  take_slot selecting =
      if ltb a.tokens a.capacity
      then some (record a { tokens = suc a.tokens; poller = claiming })
      else none
  take_slot p = none

  abbrev pub take_job : Poller → JobRef → Option Agent
  take_job claiming k = some (start k)
  take_job p k = none

  abbrev pub resume : Poller → Option Agent
  resume pausing = some (record a { poller = selecting })
  resume p = none

  -- A context that has ended is seen at the select and in the wait. A select whose two cases are both
  -- ready may still take the other one.
  abbrev pub stop_at : Poller → Option Agent
  stop_at selecting = if a.shut then some (record a { poller = returned }) else none
  stop_at pausing = if a.shut then some (record a { poller = returned }) else none
  stop_at p = none

  -- none: the step is not possible.
  unfoldable pub step : Step → Option Agent
  unfolding apply find select
  step acquire = take_slot a.poller
  step claim_failed = after_claim a.poller (if a.shut then returned else pausing)
  step claim_empty = after_claim a.poller pausing
  step pause_over = resume a.poller
  step (claim_job k) = take_job a.poller k
  step shutdown = some (record a { shut = true; jobs = map (end_with shut_down) a.jobs })
  step stop = stop_at a.poller
  step (register_attempt n) = enter_job (find (is_id n) a.jobs)
  step (stale n) = some (cancel_id aborted n)
  step (leave_attempt n) = leave_job (find (is_id n) a.jobs)
  step (release n) = release_job n (find (is_id n) a.jobs)
  step (directed d) = some (apply d)

abbrev pub new : ℕ → Agent
new capacity = record {
  capacity = capacity;
  tokens = 0;
  poller = selecting;
  shut = false;
  jobs = [];
  next_id = 0;
  active = [];
}

abbrev pub run_on : List Step → Option Agent → Option Agent
run_on [] a = a
run_on (e ∷ es) none = none
run_on (e ∷ es) (some a) = run_on es (step a e)
