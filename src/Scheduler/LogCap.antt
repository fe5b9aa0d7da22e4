-- ===== src/Scheduler/LogCap.antt =====
-- AppendLogs of internal/scheduler/logs.go: the cap on the stored log of an attempt.
use quarry.Base.{
  ℕ, ◌+◌, ◌-◌, ◌≤◌, max, String, List, [], ◌∷◌, ◌++◌, ◌≡◌, refl, Bool, true, false, arith, ◌&&◌,
  not, ◌==◌, any, select, length, length-take-le, ℕ-eq, String-eq,
}
use quarry.Store.Types.{Job, JobState-eq, running, LogRow, LogChunk}
use quarry.Store.Monad.{Store, ◌>>=◌, ◌>>◌, Error, throw, return, guard, tx, M, now, fenced, final}
use quarry.Store.Rules.{
  Ensures, Ensures-bind, Ensures-return, Ensures-weaken, Holds-tx, Keeps, Keeps-if, Keeps-bind,
  Keeps-return, Keeps-guard,
}
use quarry.Store.Events.{append_event, insert_event, has_job_event}
use quarry.Store.Jobs.{get_job}
use quarry.Life.Quiet.{get_job-Keeps}
use quarry.Store.Logs.{is_chunk_of, log_row, log_bytes, insert_log_chunk, sum_bytes}
use quarry.Scheduler.Logs.{
  Progress, cut, append_chunk, append_chunks, append_logs, note_loss, count_log_bytes, is_bad_seq,
}

sum_bytes-snoc :
    (job_id : String) (attempt seq : ℕ) (bytes : List ℕ) (rows : List LogRow)
    → sum_bytes
        (select (is_chunk_of job_id attempt) (rows ++ log_row job_id attempt seq bytes ∷ []))
      ≡ sum_bytes (select (is_chunk_of job_id attempt) rows) + length bytes
unfolding sum_bytes select
sum_bytes-snoc job_id attempt seq bytes [] = ground arith
sum_bytes-snoc job_id attempt seq bytes (r ∷ rows) =
    ground (arith, sum_bytes-snoc job_id attempt seq bytes rows)

guarded :
    {A : Type 0} (R : Store → Type 0) (b : Bool) (e : Error) (m : M A) (s : Store)
    → R s
    → R (final (m s))
    → R (final ((guard b e >> m) s))
unfolding ◌>>=◌ guard return throw
guarded R true e m s h k = k
guarded R false e m s h k = h

-- The number of bytes stored for an attempt.
abbrev pub stored_bytes : String → ℕ → Store → ℕ
stored_bytes job_id attempt s = sum_bytes (select (is_chunk_of job_id attempt) s.log_chunks)

module _ (log_cap : ℕ) (job_id : String) (attempt : ℕ) where
  -- The running total is the size of the stored log, and within the cap unless it was over it before.
  pub record Within (before : ℕ) (p : Progress) (s : Store) : Type 0 where
    pub exact : p.total ≡ stored_bytes job_id attempt s
    pub capped : p.total ≤ max log_cap before

  append_chunk-Within :
      (before : ℕ) (c : LogChunk) (p : Progress)
      → Ensures (Within before p) (append_chunk log_cap job_id attempt c p) (Within before)
  unfolding append_chunk insert_log_chunk ◌>>=◌
  append_chunk-Within before c p = record {
    at = λ s w. ground (
      arith,
      length-take-le (log_cap - p.total) c.chunk,
      sum_bytes-snoc job_id attempt c.seq (cut log_cap p.total c.chunk) s.log_chunks,
    );
  }

  append_chunks-Within :
      (before : ℕ) (cs : List LogChunk) (p : Progress)
      → Ensures (Within before p) (append_chunks log_cap job_id attempt cs p) (Within before)
  unfolding append_chunks
  append_chunks-Within before [] p = Ensures-return (Within before) p
  append_chunks-Within before (c ∷ cs) p =
      Ensures-bind (Within before) _ _ (append_chunk-Within before c p)
        (append_chunks-Within before cs)

  -- The store holds at most the cap, or what it held before.
  abbrev Capped : ℕ → Store → Type 0
  Capped before s = stored_bytes job_id attempt s ≤ max log_cap before

  note_loss-Capped :
      (before : ℕ) (job : Job) (lost : Bool)
      → Keeps (Capped before) (note_loss log_cap job_id attempt job lost)
  unfolding note_loss append_event insert_event has_job_event now
  note_loss-Capped before job lost =
      Keeps-if lost _ _
        (Keeps-bind _ _ (record { at = λ s p. p })
          λ has. Keeps-if has _ _ (Keeps-return tt) (
            Keeps-bind _ _ (Keeps-guard _ _)
              λ _. Keeps-bind _ _ (record { at = λ s p. p }) λ time. record { at = λ s p. p }))
        (Keeps-return tt)

  rest-Capped :
      (before : ℕ) (cs : List LogChunk) (job : Job) (total : ℕ)
      → Ensures
          (λ s. (total ≡ stored_bytes job_id attempt s) × (stored_bytes job_id attempt s ≡ before))
          (do
            p ←
                append_chunks log_cap job_id attempt cs
                  (record { total = total; stored = 0; lost = false })
            note_loss log_cap job_id attempt job p.lost
            count_log_bytes p.stored)
          (λ _. Capped before)
  rest-Capped before cs job total =
      Ensures-bind (Within before) _ _
        (Ensures-weaken _ (λ s h. record { exact = h.0; capped = omega (arith, h.0, h.1) })
          (λ p s w. w) (append_chunks-Within before cs _))
        λ p.
          Ensures-bind (λ _. Capped before) _ _
            (Ensures-weaken _ (λ s w. omega (arith, w.exact, w.capped)) (λ _ s k. k)
              (note_loss-Capped before job p.lost))
            λ _. record { at = λ s k. k }

  append_logs-tx :
      (before : ℕ) (cs : List LogChunk)
      → Ensures
          (λ s. stored_bytes job_id attempt s ≡ before)
          (do
            job ← get_job job_id
            guard (job.state == running && job.attempt == attempt) fenced
            total ← log_bytes job_id attempt
            p ←
                append_chunks log_cap job_id attempt cs
                  (record { total = total; stored = 0; lost = false })
            note_loss log_cap job_id attempt job p.lost
            count_log_bytes p.stored)
          (λ _. Capped before)
  unfolding log_bytes
  append_logs-tx before cs =
      Ensures-bind (λ _ s. stored_bytes job_id attempt s ≡ before) _ _
        (get_job-Keeps (λ s. stored_bytes job_id attempt s ≡ before) job_id)
        λ job.
          Ensures-bind (λ _ s. stored_bytes job_id attempt s ≡ before) _ _ (Keeps-guard _ _)
            λ _.
              Ensures-bind
                (λ total s.
                  (total ≡ stored_bytes job_id attempt s)
                  × (stored_bytes job_id attempt s ≡ before))
                _ _ (record { at = λ s h. (refl, h) }) (rest-Capped before cs job)

  -- Whatever a batch of chunks holds and however it is cut, an accepted or refused call leaves at most
  -- the cap of stored bytes for the attempt, or what was stored before if that is more.
  pub append_logs_capped :
      (chunks : List LogChunk) (s : Store)
      → stored_bytes job_id attempt (final (append_logs log_cap job_id attempt chunks s))
        ≤ max log_cap (stored_bytes job_id attempt s)
  unfolding append_logs tx
  append_logs_capped chunks s =
      guarded (Capped (stored_bytes job_id attempt s)) (not (any is_bad_seq chunks)) _ _ s
        (omega arith)
        (Holds-tx {P = Capped (stored_bytes job_id attempt s)} s _ (record { at = λ u c h. h })
          (omega arith) ((append_logs-tx (stored_bytes job_id attempt s) chunks).at s refl))
