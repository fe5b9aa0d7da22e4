-- ===== src/Pipeline.antt =====
-- internal/pipeline/pipeline.go: the validated pipeline and the order of its jobs.
pub mod Types
pub mod Topo
pub mod Validate
pub mod Counts
pub mod Degrees
pub mod Needs
pub mod Kahn
pub mod Order
pub mod Placed
pub mod Mirror
