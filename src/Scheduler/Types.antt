-- ===== src/Scheduler/Types.antt =====
-- internal/scheduler/scheduler.go: configuration, the spec of a job, transitions and events.
use quarry.Base.{
  ℕ, ◌-◌, ◌*◌, ◌/◌, ◌+◌, String, List, [], ◌∷◌, ◌++◌, Option, none, some, Bool, true, false, ◌&&◌,
  ◌==◌, ℕ-eq, String-eq, leb, ltb, if◌then◌else◌,
}
use quarry.Store.Types.{
  Job, JobState, succeeded, failed, cancelled, skipped, FailureKind, infra, lost_runner, Labels,
  Detail,
}
use quarry.Store.Monad.{internal, ok, M, ◌>>=◌, return, throw, now}
use quarry.Store.Events.{append_event}

-- Durations are nanoseconds, as in Go; 0 (or less, in the source) takes the default.
pub record Config : Type 0 where
  pub lease_ttl : ℕ
  pub log_cap_bytes : ℕ
  pub max_attempts : ℕ
  pub monitor_interval : ℕ
  pub runner_offline_after : ℕ
  pub timeout_grace : ℕ

abbrev pub nanos_per_milli : ℕ
nanos_per_milli = 1000000

abbrev second : ℕ
second = 1000 * nanos_per_milli

pub record Scheduler : Type 0 where
  pub ttl : ℕ
  pub log_cap : ℕ
  pub max_attempts : ℕ
  pub monitor_each : ℕ
  pub offline_ms : ℕ
  pub grace_ms : ℕ
  pub lease_grace_until : ℕ

abbrev or_default : ℕ → ℕ → ℕ
or_default n d = if n == 0 then d else n

unfoldable pub new : Config → M Scheduler
new cfg = do
  time ← now
  let ttl = or_default cfg.lease_ttl (30 * second) / nanos_per_milli
  return (record {
    ttl = ttl;
    log_cap = or_default cfg.log_cap_bytes (10 * 1024 * 1024);
    max_attempts = or_default cfg.max_attempts 3;
    monitor_each = or_default cfg.monitor_interval (5 * second);
    offline_ms = or_default cfg.runner_offline_after (30 * second) / nanos_per_milli;
    grace_ms = or_default cfg.timeout_grace (30 * second) / nanos_per_milli;
    lease_grace_until = time + ttl;
  })

-- The fields of a decoded pipeline.Job that the scheduler reads. Decoding a stored spec is
-- encoding/json: a parameter. A negative timeout, which Parse refuses, is 0 here.
pub record Spec : Type 0 where
  pub labels : Labels
  pub timeout : ℕ

unfoldable pub job_spec : (String → Option Spec) → Job → M Spec
job_spec decode j = elim (decode j.spec_json) [
  | none ↦ throw (internal "decode spec")
  | some spec ↦ return spec
]

-- have[k] of a Go map: "" for a missing key.
unfoldable pub label_at : Labels → String → String
label_at [] k = ""
label_at ((j, v) ∷ rest) k = if j == k then v else label_at rest k

unfoldable pub labels_subset : Labels → Labels → Bool
unfolding label_at
labels_subset [] have = true
labels_subset ((k, v) ∷ need) have =
    let rest = labels_subset need have in if label_at have k == v then rest else false

abbrev pub retryable : FailureKind → Bool
retryable infra = true
retryable lost_runner = true
retryable _ = false

unfoldable pub is_terminal : JobState → Bool
is_terminal succeeded = true
is_terminal failed = true
is_terminal cancelled = true
is_terminal skipped = true
is_terminal _ = false

-- transitions: what a transaction changed. It is part of the state that a rollback restores, and
-- so reaches the metrics exactly when the transaction commits.
unfoldable pub enter : JobState → M (Unit {0})
enter st s =
    let m = s.metrics in ok tt (record s { metrics = record m { entered = m.entered ++ st ∷ [] } })

abbrev attempt_duration : ℕ → ℕ → List ℕ
attempt_duration started finished_at =
    if ltb 0 started && leb started finished_at then (finished_at - started) ∷ [] else []

unfoldable pub finished : JobState → ℕ → ℕ → M (Unit {0})
unfolding enter
finished st started finished_at = do
  done ← enter st
  λ s.
      let m = s.metrics in
      ok tt (record s {
        metrics = record m { durations = m.durations ++ attempt_duration started finished_at };
      })

abbrev pub event : String → String → String → List (String × Detail) → M (Unit {0})
event run_id job_id type detail = append_event run_id job_id type detail
