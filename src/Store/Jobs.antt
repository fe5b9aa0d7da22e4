-- ===== src/Store/Jobs.antt =====
-- internal/store/jobs.go, and the reads of jobs in runs.go. Each write names the rows that it
-- expects in its WHERE clause, and tells whether exactly one row changed.
use quarry.Base.{
  ℤ, ℕ, suc, ◌+◌, String, List, Option, none, some, Bool, true, false, ◌&&◌, ◌||◌, ◌==◌, ℕ-eq,
  String-eq, ltb, if◌then◌else◌, length, select, find, update, sort_on,
}
use quarry.Store.Types.{Job, JobState, JobState-eq, FailureKind, CancelReason}
use quarry.Store.Monad.{not_found, required, ok, M, ◌>>=◌, return, throw, now, int64, null_str}

-- An UPDATE of the table jobs, and whether one row was affected.
unfoldable pub update_jobs : (Job → Bool) → (Job → Job) → M Bool
update_jobs p f s = ok (length (select p s.jobs) == 1) (record s { jobs = update p f s.jobs })

abbrev pub is_null : Option ℕ → Bool
is_null none = true
is_null (some n) = false

abbrev pub is_runner : String → Option String → Bool
is_runner r none = false
is_runner r (some t) = t == r

-- (id, state, attempt): the fence of the runner-side writes.
abbrev pub is_running_at : String → ℕ → Job → Bool
is_running_at id attempt j = j.id == id && (j.state == JobState.running && j.attempt == attempt)

unfoldable pub get_job : String → M Job
get_job id s = elim (find (λ (j : Job). j.id == id) s.jobs) [
  | none ↦ throw not_found s
  | some j ↦ ok j s
]

unfoldable pub list_jobs : String → M (List Job)
list_jobs run_id s = ok (select (λ j. j.run_id == run_id) s.jobs) s

-- ORDER BY queued_at, rowid
unfoldable pub list_queued_jobs : M (List Job)
list_queued_jobs s =
    ok (sort_on (λ j. j.queued_at) (select (λ j. j.state == JobState.queued) s.jobs)) s

abbrev pub is_expired : ℕ → Job → Bool
is_expired time j =
    j.state == JobState.running
    && elim j.lease_expires_at [ none ↦ false | some lease ↦ ltb lease time ]

-- ORDER BY lease_expires_at, rowid
unfoldable pub list_expired_leases : ℕ → M (List Job)
list_expired_leases time s =
    ok (sort_on (λ j. int64 j.lease_expires_at) (select (is_expired time) s.jobs)) s

abbrev pub is_uncancelled : Job → Bool
is_uncancelled j = j.state == JobState.running && is_null j.cancel_requested_at

-- ORDER BY started_at, rowid, where NULL comes first
unfoldable pub list_running_jobs : M (List Job)
list_running_jobs s =
    ok
      (sort_on (λ j. elim j.started_at [ none ↦ 0 | some t ↦ suc t ])
        (select is_uncancelled s.jobs))
      s

abbrev pub is_queued : String → Job → Bool
is_queued id j = j.id == id && j.state == JobState.queued

abbrev pub to_running : String → ℕ → ℕ → Job → Job
to_running runner lease time j = record j {
  state = JobState.running;
  runner_id = some runner;
  attempt = j.attempt + 1;
  lease_expires_at = some lease;
  started_at = some time;
}

unfoldable pub claim_job : String → String → ℕ → M (Option ℕ)
claim_job id runner lease = do
  time ← now
  won ← update_jobs (is_queued id) (to_running runner lease time)
  if won then (do j ← get_job id; return (some j.attempt)) else return none

abbrev pub is_held : String → ℕ → String → Job → Bool
is_held id attempt runner j = is_running_at id attempt j && is_runner runner j.runner_id

abbrev pub with_lease : ℕ → Job → Job
with_lease lease j = record j { lease_expires_at = some lease }

unfoldable pub extend_lease : String → ℕ → String → ℕ → M Bool
extend_lease id attempt runner lease = update_jobs (is_held id attempt runner) (with_lease lease)

abbrev pub to_finished : JobState → Option FailureKind → Option ℤ → Option String → ℕ → Job → Job
to_finished state kind code msg time j = record j {
  state = state;
  failure_kind = kind;
  exit_code = code;
  error = msg;
  lease_expires_at = none;
  finished_at = some time;
}

-- A kind `none` is the source's "".
unfoldable pub finish_job : String → ℕ → JobState → Option FailureKind → Option ℤ → String → M Bool
finish_job id attempt state kind code msg = do
  time ← now
  update_jobs (is_running_at id attempt) (to_finished state kind code (null_str msg) time)

abbrev pub to_requeued : Option String → ℕ → Job → Job
to_requeued msg time j = record j {
  state = JobState.queued;
  runner_id = none;
  lease_expires_at = none;
  started_at = none;
  error = msg;
  queued_at = time;
}

unfoldable pub requeue_job : String → ℕ → String → M Bool
requeue_job id attempt msg = do
  time ← now
  update_jobs (is_running_at id attempt) (to_requeued (null_str msg) time)

abbrev pub is_pending : String → Job → Bool
is_pending id j = j.id == id && j.state == JobState.pending

abbrev pub to_queued : ℕ → Job → Job
to_queued time j = record j { state = JobState.queued; queued_at = time }

abbrev pub to_skipped : ℕ → Job → Job
to_skipped time j = record j { state = JobState.skipped; finished_at = some time }

abbrev pub transition_to : String → JobState → ℕ → M Bool
transition_to id JobState.queued time = update_jobs (is_pending id) (to_queued time)
transition_to id JobState.skipped time = update_jobs (is_pending id) (to_skipped time)
transition_to id _ time = throw (required "unsupported target")

unfoldable pub transition_pending_job : String → JobState → M Bool
transition_pending_job id to = do time ← now; transition_to id to time

abbrev pub is_unstarted : String → Job → Bool
is_unstarted id j = j.id == id && (j.state == JobState.pending || j.state == JobState.queued)

abbrev pub to_cancelled : Option String → ℕ → Job → Job
to_cancelled msg time j = record j {
  state = JobState.cancelled;
  failure_kind = some FailureKind.cancelled;
  error = msg;
  finished_at = some time;
}

unfoldable pub cancel_job : String → String → M Bool
cancel_job id msg = do time ← now; update_jobs (is_unstarted id) (to_cancelled (null_str msg) time)

abbrev pub with_cancel : ℕ → CancelReason → Job → Job
with_cancel time why j = record j { cancel_requested_at = some time; cancel_reason = some why }

unfoldable pub request_job_cancel : String → CancelReason → M Bool
request_job_cancel id why = do
  time ← now
  update_jobs (λ j. j.id == id && is_uncancelled j) (with_cancel time why)
