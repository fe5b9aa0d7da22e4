-- ===== src/Logship.antt =====
-- internal/logship/logship.go: the log shipper of a runner.
pub mod Buffer
pub mod Loop
pub mod Chunks
pub mod Stream
pub mod Delivery
pub mod Runs
pub mod Stale
pub mod Retry
