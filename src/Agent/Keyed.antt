-- ===== src/Agent/Keyed.antt =====
-- Directives reach the attempt that they name, over any order of the runner's steps.
use quarry.Base.{ℕ, ◌<◌, List, not, ◌==◌, ℕ-eq, String-eq, ◌≡◌, select, if◌then◌else◌, All}
use quarry.Scheduler.Heartbeat.{JobRef, Directive}
use quarry.Agent.Slots.{Running, Agent, is_key}

module _ (f : ℕ → JobRef) (bound : ℕ) where
  abbrev IsNamed : Running → Type 0
  IsNamed r = (r.key ≡ f r.id) × (r.id < bound)

  abbrev IsEntry : JobRef × ℕ → Type 0
  IsEntry e = (e.0 ≡ f e.1) × (e.1 < bound)

-- The number of each goroutine stands for one key: f tells which.
abbrev pub IsKeyedBy : (ℕ → JobRef) → Agent → Type 0
IsKeyedBy f a = All (IsNamed f a.next_id) a.jobs × All (IsEntry f a.next_id) a.active

abbrev pub IsKeyed : Agent → Type 0
IsKeyed a = (f : ℕ → JobRef) × IsKeyedBy f a

-- A new goroutine has a number that none had.
abbrev extended : (ℕ → JobRef) → ℕ → JobRef → ℕ → JobRef
extended f n k i = if i == n then k else f i

-- The key that a directive names.
abbrev pub named_key : Directive → JobRef
named_key d = record { job_id = d.job_id; attempt = d.attempt }

abbrev pub others : JobRef → Agent → List Running
others k a = select (λ (r : Running). not (is_key r.key k)) a.jobs
