-- ===== src/Life.antt =====
-- The life of a job across the whole system: the state machine that the SQL updates implement, and
-- what follows for every history of requests. Models internal/store/jobs.go as seen by
-- internal/scheduler.
pub mod Move
pub mod Stable
pub mod Quiet
pub mod Sync
pub mod Settling
pub mod Advancing
pub mod Again
pub mod Unique
pub mod Writes
pub mod Requests
pub mod Verdicts
pub mod Ticks
pub mod Submitting
pub mod History
pub mod Laws
pub mod Order
pub mod Clearing
pub mod Cleared
pub mod Rounds
pub mod Ending
pub mod Total
