-- ===== src/Lib.antt =====
-- Quarry: a verification library for the control plane of a CI system.
--
-- A server keeps all state in one SQLite database. Runners register, claim queued jobs, renew their
-- leases by heartbeats, ship logs and report results; a monitor requeues or fails jobs whose lease
-- ran out; users submit pipelines and cancel runs. Each of these is one transaction.
--
-- Files, and the code that they model:
--   Base      shared names, Boolean tests, list lemmas
--   Store     internal/store. Types: types.go, the rows. Monad: store.go, the tables with a clock, and
--             Tx. Jobs: jobs.go and the reads of jobs in runs.go. Runs: SetRunState of jobs.go, and
--             runs.go. Runners: runners.go, and TouchRunner of jobs.go. Events: events.go.
--             Logs: logs.go. Artifacts: artifacts.go. Rules: how to prove what an action keeps.
--   Scheduler internal/scheduler. Types: configuration, label and state tests, events. Advance:
--             advance. Claim, Heartbeat, Complete, Cancel: the methods of these names. Monitor:
--             Tick of monitor.go. Logs: AppendLogs of logs.go. Fence, Verdict, LogCap,
--             Redelivery, Labels and Directives hold proofs.
--   Pipeline  internal/pipeline/pipeline.go: Types has the document and Roots, Validate finalize, Topo
--             topo and Dependents. Counts, Degrees, Needs, Kahn and Order prove topo; Placed and Mirror
--             prove what finalize sets up for it.
--   Logship   internal/logship/logship.go: Buffer has the functions that hold the shipper's lock, Loop
--             the goroutine of loop and drain, and Close. Chunks, Stream, Delivery, Stale, Runs and
--             Retry hold proofs.
--   Artifact  internal/artifact. Path: the keys and the checks of artifact.go. Remote: the store of
--             remote/remote.go. Key, Plain, Tries and Readback hold proofs.
--   Api       internal/api. Submit: submitRun of submit.go. Register: handleRegister of runner.go.
--             Artifacts: handleUploadArtifact and handleGetArtifact of artifacts.go. Runner: the
--             handlers of runner.go and logs.go. Admission, Rows, Uploads, Stale and
--             Paging hold proofs.
--   Agent     internal/agent. Client: the requests of client.go and the loops around them. Attempt:
--             runAttempt of agent.go. Slots: the poll loop, the semaphore, the registered attempts
--             and apply of agent.go. Delivery joins the client, the network, the handler and the
--             scheduler. Retry, Waits, Discipline, Protocol, Outcomes,
--             Capacity and Keyed hold proofs.
--   Life      the system as a whole. Move: the state machine of a job, one constructor for each
--             guarded UPDATE. History: a sequence of requests, each served by a scheduler of its
--             own, so that restarts with another configuration are included. The other modules
--             prove that every request keeps what the state machine keeps.
--   Tests     a small table, runs of the code on it, and the results at it. Shipper, Documents, Files,
--             Runner, Remote, Logs and Directed do this for the log shipper, for pipelines, for artifacts, for the
--             runner, for the remote artifact store and for the reading of logs.
--
-- An action is a function from the store to an outcome: a value or an error, with the store after it.
-- A Go method on the store or the scheduler is an action of the same name in snake case; a SQL UPDATE is
-- a test for its WHERE and a function for its SET, and tells whether one row changed. A transaction
-- that fails rolls back everything but the clock. The clock is an arbitrary stream of readings, with
-- no order between them.
--
-- Bounds and fuel. Times, sizes and attempts are natural numbers without an upper bound: int64 in
-- milliseconds or bytes does not overflow in practice. The fixpoint loop of advance runs on fuel, the
-- number of jobs of the run plus one: each pass but the last moves a job out of pending, so
-- the fuel is enough. The loop of topo has fuel for one round per job, the loop that seals chunks for
-- one round per byte, and the digits of n have fuel n. The loop of the remote store recurses on the tries
-- that are left.
--
-- The log shipper. Its lock makes each call of Write, each step of the goroutine and each part of Close
-- atomic, so a run is a sequence of events: a write, a wake by the ticker or a kick, a reply of the
-- sink, the end of a wait, Close. Any order is a run, also one that the channels would not give.
--
-- The runner. A loop of the client runs on a list of turns: one turn is what one pass meets (whether the
-- context has ended, and what the network gives back); a call that the list is too short for has not
-- returned yet. An attempt is a function from what the executor, the upload, the directory and the
-- contexts do to the list of its visible actions. The goroutines together are a sequence of steps in
-- any order, where a step that the semaphore or the poll loop does not allow is no run.
--
-- Parameters. Decoding and encoding a job's spec (encoding/json) and drawing new ids (crypto/rand)
-- are arguments of the definitions that use them, and so are the artifact store (put, delete, read) and
-- SHA-256 in the artifact handlers, the network and the coordinator of the remote store, and the escaping
-- of a URL.
--
-- Not modelled. SQLite itself: a statement succeeds unless a constraint refuses it, and the
-- connection serialises transactions. HTTP and JSON below the status codes; the executor; the local
-- artifact store; the command line; metrics beyond what transactions count; the YAML decoder.
pub mod Agent
pub mod Api
pub mod Artifact
pub mod Base
pub mod Life
pub mod Logship
pub mod Pipeline
pub mod Scheduler
pub mod Store
pub mod Tests
