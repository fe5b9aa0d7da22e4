-- ===== src/Agent.antt =====
-- internal/agent: the runner.
pub mod Client
pub mod Retry
pub mod Waits
pub mod Attempt
pub mod Discipline
pub mod Protocol
pub mod Outcomes
pub mod Slots
pub mod Capacity
pub mod Keyed
pub mod Delivery
