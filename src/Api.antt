-- ===== src/Api.antt =====
-- internal/api: the handlers.
pub mod Submit
pub mod Register
pub mod Artifacts
pub mod Admission
pub mod Rows
pub mod Uploads
pub mod Stale
pub mod Runner
pub mod Paging
