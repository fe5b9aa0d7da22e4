-- ===== src/Life/Ticks.antt =====
-- Tick and AppendLogs move rows along the job state machine only.
use quarry.Base.{
  ℕ, String, List, [], ◌∷◌, Option, Bool, true, false, refl, arith, All-map, All-select,
  All-sort_on, Bool-cases, inl, inr, leb,
}
use quarry.Store.Types.{Job, LogChunk, queued, failed}
use quarry.Store.Monad.{Store, return}
use quarry.Store.Rules.{
  Ensures, Ensures-bind, Ensures-weaken, Keeps, Keeps-bind, Keeps-guard, Keeps-if, Keeps-return,
  Always, Always-bind, Always-guard, Always-tx,
}
use quarry.Store.Jobs.{list_expired_leases, is_expired}
use quarry.Scheduler.Types.{Scheduler, Spec}
use quarry.Scheduler.Monitor.{
  expire, expire_all, can_requeue, backstop, backstop_all, expired_at, tick, count_expirations,
}
use quarry.Scheduler.Logs.{Progress, append_chunk, append_chunks, note_loss, append_logs}
use quarry.Life.Move.{Ends, Move, failed_verdict}
use quarry.Life.Stable.{
  IsStable, IsStable-Ends, IsStable-Settles, IsStable-IsTimeless, Both, IsStable-Both, now-Keeps,
}
use quarry.Life.Quiet.{
  get_job-Keeps, append_event-Keeps, enter-Keeps, finished-Keeps, job_spec-Keeps,
  list_running_jobs-Keeps, mark_runners_offline-Keeps, log_bytes-Keeps, has_job_event-Keeps,
  insert_log_chunk-Keeps,
}
use quarry.Life.Advancing.{advance-Keeps}
use quarry.Life.Unique.{IsUnique, IsUnique-snapshots, Snapshot, Snapshots, Snapshots-stable}
use quarry.Life.Writes.{finish_job-Keeps, requeue_job-Keeps, request_job_cancel-Keeps}

module _ {P : Store → Type 0} (c : IsStable Ends P) (unique : (s : Store) → P s → IsUnique s) where
  expire-Keeps : (time : ℕ) (j : Job) → ((s : Store) → P s → Snapshot j s) → Keeps P (expire time j)
  unfolding expire
  expire-Keeps time j snap = elim (Bool-cases (can_requeue j)) [
    | inl e ↦ rw e (
        Keeps-bind _ _ (requeue_job-Keeps c j _ (ground (arith, e)) (ground (arith, e)) snap) λ _.
          Keeps-bind _ _ (enter-Keeps c queued)
            λ _. Keeps-bind _ _ (append_event-Keeps c _ _ _ _) λ _. Keeps-return true)
    | inr e ↦ rw e (
        Keeps-bind _ _ (finish_job-Keeps c j.id j.attempt failed _ _ _ failed_verdict) λ _.
          Keeps-bind _ _ (finished-Keeps c failed _ time) λ _.
            Keeps-bind _ _ (append_event-Keeps c _ _ _ _) λ _.
              Keeps-bind _ _ (advance-Keeps (IsStable-Settles c) unique j.run_id)
                λ _. Keeps-return false)
  ]

  expire_all-Keeps :
      (time : ℕ) (js : List Job)
      → ((s : Store) → P s → Snapshots js s)
      → Keeps P (expire_all time js)
  unfolding expire_all
  expire_all-Keeps time [] snap = Keeps-return _
  expire_all-Keeps time (j ∷ js) snap =
      Keeps-bind _ _ (expire-Keeps time j (λ s p. (snap s p).0)) λ back.
        Keeps-bind _ _ (expire_all-Keeps time js (λ s p. (snap s p).1))
          λ (requeued, lost). Keeps-if back _ _ (Keeps-return _) (Keeps-return _)

module _ {P : Store → Type 0} (c : IsStable Move P) (unique : (s : Store) → P s → IsUnique s)
    (decode : String → Option Spec) (sched : Scheduler) where
  backstop-Keeps : (time : ℕ) (j : Job) → Keeps P (backstop decode sched time j)
  unfolding backstop
  backstop-Keeps time j = Keeps-bind _ _ (job_spec-Keeps P decode j) λ spec.
      Keeps-if _ _ _
        (Keeps-bind _ _ (request_job_cancel-Keeps c j.id _) λ asked.
          Keeps-if asked _ _ (Keeps-bind _ _ (append_event-Keeps c _ _ _ _) λ _. Keeps-return true)
            (Keeps-return false))
        (Keeps-return false)

  backstop_all-Keeps : (time : ℕ) (js : List Job) → Keeps P (backstop_all decode sched time js)
  unfolding backstop_all
  backstop_all-Keeps time [] = Keeps-return _
  backstop_all-Keeps time (j ∷ js) = Keeps-bind _ _ (backstop-Keeps time j) λ asked.
      Keeps-bind _ _ (backstop_all-Keeps time js)
        λ rest. Keeps-if asked _ _ (Keeps-return _) (Keeps-return _)

  list_expired-Ensures :
      (time : ℕ) → Ensures P (list_expired_leases time) (λ js s. P s × Snapshots js s)
  unfolding list_expired_leases
  list_expired-Ensures time = record {
    at = λ s p. (
      p,
      All-sort_on _ _ _ (
          All-map _ _ _ (λ j h. h.0)
            (All-select _ (is_expired time) s.jobs (IsUnique-snapshots s (unique s p)))),
    );
  }

  -- The expired rows are read in the state in which their leases are then taken away.
  expired_at-Ensures : (time : ℕ) → Ensures P (expired_at sched time) (λ js s. P s × Snapshots js s)
  unfolding return
  expired_at-Ensures time = elim (Bool-cases (leb sched.lease_grace_until time)) [
    | inl e ↦ rw e (list_expired-Ensures time)
    | inr e ↦ rw e (Ensures-weaken _ (λ s p. p) (λ js s q. q) nothing)
  ]
    where
      nothing : Ensures P (return []) (λ js s. P s × Snapshots js s)
      nothing = record { at = λ s p. (p, tt) }

  expire_read-Keeps :
      (time : ℕ) (js : List Job) → Keeps (Both P (Snapshots js)) (expire_all time js)
  expire_read-Keeps time js =
      expire_all-Keeps (IsStable-Both (IsStable-Ends c) (Snapshots-stable js)) (λ s p. unique s p.0)
        time js (λ s p. p.1)

  count_expirations-Keeps : (n : ℕ) → Keeps P (count_expirations n)
  count_expirations-Keeps n = record { at = λ s. c.quiet s _ refl refl }

  pub tick-Keeps : Always P (tick decode sched)
  unfolding tick
  tick-Keeps = Always-tx _ (IsStable-IsTimeless c) (
      Keeps-bind _ _ (now-Keeps c) λ time.
        Ensures-bind (λ js s. P s × Snapshots js s) _ _ (expired_at-Ensures time)
          λ expired.
            Ensures-bind (λ _. P) _ _
              (Ensures-weaken _ (λ s p. p) (λ r s q. q.0) (expire_read-Keeps time expired))
              λ (requeued, lost). Keeps-bind _ _ (list_running_jobs-Keeps P) λ live.
                Keeps-bind _ _ (backstop_all-Keeps time live) λ timed_out.
                  Keeps-bind _ _ (mark_runners_offline-Keeps c _)
                    λ silent. Keeps-bind _ _ (count_expirations-Keeps _) λ _. Keeps-return _)

module _ {P : Store → Type 0} (c : IsStable Move P) (log_cap : ℕ) (job_id : String)
    (attempt : ℕ) where
  append_chunk-Keeps :
      (k : LogChunk) (p : Progress) → Keeps P (append_chunk log_cap job_id attempt k p)
  unfolding append_chunk
  append_chunk-Keeps k p =
      Keeps-bind _ _ (insert_log_chunk-Keeps c _ _ _ _)
        λ inserted. Keeps-if inserted _ _ (Keeps-return _) (Keeps-return _)

  append_chunks-Keeps :
      (ks : List LogChunk) (p : Progress) → Keeps P (append_chunks log_cap job_id attempt ks p)
  unfolding append_chunks
  append_chunks-Keeps [] p = Keeps-return p
  append_chunks-Keeps (k ∷ ks) p =
      Keeps-bind _ _ (append_chunk-Keeps k p) λ p'. append_chunks-Keeps ks p'

  note_loss-Keeps : (job : Job) (lost : Bool) → Keeps P (note_loss log_cap job_id attempt job lost)
  unfolding note_loss
  note_loss-Keeps job lost =
      Keeps-if lost _ _
        (Keeps-bind _ _ (has_job_event-Keeps P _ _ _ _)
          λ has. Keeps-if has _ _ (Keeps-return tt) (append_event-Keeps c _ _ _ _))
        (Keeps-return tt)

  pub append_logs-Keeps : (ks : List LogChunk) → Always P (append_logs log_cap job_id attempt ks)
  unfolding append_logs
  append_logs-Keeps ks = Always-bind _ _ (Always-guard _ _) λ _.
      Always-tx _ (IsStable-IsTimeless c) (
        Keeps-bind _ _ (get_job-Keeps P job_id) λ job. Keeps-bind _ _ (Keeps-guard _ _) λ _.
          Keeps-bind _ _ (log_bytes-Keeps P job_id attempt) λ total.
            Keeps-bind _ _ (append_chunks-Keeps ks _) λ p.
              Keeps-bind _ _ (note_loss-Keeps job _)
                λ _. record { at = λ s. c.quiet s _ refl refl })
