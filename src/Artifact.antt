-- ===== src/Artifact.antt =====
-- internal/artifact: the names under which artifacts are stored, and the remote store.
pub mod Path
pub mod Key
pub mod Plain
pub mod Remote
pub mod Tries
pub mod Readback
