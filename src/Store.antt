-- ===== src/Store.antt =====
-- internal/store: the tables and the operations on them.
pub mod Types
pub mod Monad
pub mod Rules
pub mod Jobs
pub mod Runs
pub mod Runners
pub mod Events
pub mod Logs
pub mod Artifacts
pub mod Success
