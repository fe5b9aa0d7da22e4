-- ===== src/Scheduler/Logs.antt =====
-- internal/scheduler/logs.go: AppendLogs.
use quarry.Base.{
  ℕ, ◌+◌, ◌-◌, String, List, [], ◌∷◌, Bool, false, ◌&&◌, ◌||◌, not, ◌==◌, ℕ-eq, String-eq, ltb,
  if◌then◌else◌, length, any, take,
}
use quarry.Store.Types.{Job, JobState-eq, running, LogChunk, num}
use quarry.Store.Monad.{fenced, invalid, ok, M, ◌>>=◌, ◌>>◌, return, tx, guard}
use quarry.Store.Jobs.{get_job}
use quarry.Store.Events.{has_job_event}
use quarry.Store.Logs.{log_bytes, insert_log_chunk}
use quarry.Scheduler.Types.{event}

abbrev pub event_logs_truncated : String
event_logs_truncated = "job.logs_truncated"

-- Cut to the room that the cap leaves; a negative room is 0, and so is `log_cap - total` here.
abbrev pub cut : ℕ → ℕ → List ℕ → List ℕ
cut log_cap total bytes = take (log_cap - total) bytes

-- The variables of the loop.
pub record Progress : Type 0 where
  pub total : ℕ
  pub stored : ℕ
  pub lost : Bool

abbrev pub is_bad_seq : LogChunk → Bool
is_bad_seq c = ltb c.seq 1

abbrev pub count_log_bytes : ℕ → M (Unit {0})
count_log_bytes n s =
    let m = s.metrics in ok tt (record s { metrics = record m { log_bytes = m.log_bytes + n } })

module _ (log_cap : ℕ) (job_id : String) (attempt : ℕ) where
  unfoldable pub append_chunk : LogChunk → Progress → M Progress
  append_chunk c p =
      let bytes = cut log_cap p.total c.chunk in
      do
        inserted ← insert_log_chunk job_id attempt c.seq bytes
        if inserted
            then return (record {
              total = p.total + length bytes;
              stored = p.stored + length bytes;
              lost = p.lost || ltb (length bytes) (length c.chunk);
            })
            else return p

  unfoldable pub append_chunks : List LogChunk → Progress → M Progress
  append_chunks [] p = return p
  append_chunks (c ∷ cs) p = do p' ← append_chunk c p; append_chunks cs p'

  unfoldable pub note_loss : Job → Bool → M (Unit {0})
  note_loss job lost =
      if lost
      then (do
        has ← has_job_event job.run_id job_id event_logs_truncated attempt
        if has
            then return tt
            else event job.run_id job_id event_logs_truncated
                (("attempt", num attempt) ∷ ("cap_bytes", num log_cap) ∷ []))
      else return tt

  unfoldable pub append_logs : List LogChunk → M (Unit {0})
  unfolding append_chunks append_chunk note_loss
  append_logs chunks = do
    guard (not (any is_bad_seq chunks)) (invalid "log chunk seq must be >= 1")
    tx (do
      job ← get_job job_id
      guard (job.state == running && job.attempt == attempt) fenced
      total ← log_bytes job_id attempt
      p ← append_chunks chunks (record { total = total; stored = 0; lost = false })
      note_loss job p.lost
      count_log_bytes p.stored)
