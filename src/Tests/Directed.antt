-- ===== src/Tests/Directed.antt =====
-- Two attempts on one runner, of which one is cancelled.
use native.Mathlib.Decide.{ℕ_discrete}
use quarry.Base.{
  List, [], ◌∷◌, Option, none, some, ◌≡◌, refl, String-discrete, find, select, update, map,
}
use quarry.Scheduler.Heartbeat.{JobRef, Directive, Order}
use quarry.Agent.Attempt.{Cause}
use quarry.Agent.Slots.{
  Agent, Running, Step, acquire, claim_job, register_attempt, step, apply, new, run_on,
}

abbrev first_ref : JobRef
first_ref = record { job_id = "b"; attempt = 1 }

abbrev next_ref : JobRef
next_ref = record { job_id = "d"; attempt = 1 }

abbrev both : List Step
both =
    acquire
    ∷ claim_job first_ref
    ∷ register_attempt 0
    ∷ acquire
    ∷ claim_job next_ref
    ∷ register_attempt 1
    ∷ []

abbrev agent_in : Option Agent → Agent
agent_in none = new 0
agent_in (some a) = a

abbrev busy : Agent
busy = agent_in (run_on both (some (new 2)))

abbrev cancels_first : Directive
cancels_first = record { job_id = "b"; attempt = 1; directive = Order.cancel }

-- The newer attempt comes first.
ends_one :
    map (λ (r : Running). r.ended_by) (apply busy cancels_first).jobs
    ≡ none ∷ some Cause.cancelled ∷ []
unfolding step apply find select update String-discrete ℕ_discrete
ends_one = refl
