-- ===== src/Scheduler.antt =====
-- internal/scheduler: every state transition of a job.
pub mod Types
pub mod Advance
pub mod Claim
pub mod Heartbeat
pub mod Complete
pub mod Cancel
pub mod Monitor
pub mod Logs
pub mod Fence
pub mod Verdict
pub mod LogCap
pub mod Redelivery
pub mod Labels
pub mod Directives
