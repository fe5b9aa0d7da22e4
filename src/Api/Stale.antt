-- ===== src/Api/Stale.antt =====
-- What a runner sends for an attempt that is no longer the running one.
use quarry.Base.{
  ◌&&◌, ◌==◌, ℕ-eq, String-eq, ℕ, String, List, some, true, false, any, ◌≡◌, ◌≢◌, ◌⊎◌, refl, ap,
  arith, Bool-cases, Option-cases, inl, inr, All, All-find, find,
}
use quarry.Store.Types.{Job, JobState-eq, running, LogChunk}
use quarry.Store.Monad.{Store, err, not_found, final, ◌>>=◌, guard, tx, throw}
use quarry.Store.Jobs.{get_job}
use quarry.Scheduler.Types.{is_terminal}
use quarry.Scheduler.Complete.{Result, is_reportable, complete}
use quarry.Scheduler.Logs.{append_logs, is_bad_seq}
use quarry.Scheduler.Fence.{complete_duplicate, complete_stale, append_logs_stale}
use quarry.Api.Rows.{get_job-of, get_job-none}
use quarry.Api.Artifacts.{Upload, Blobs, runs_attempt, by_row, finish_upload}
use quarry.Api.Uploads.{record_row-missing, record_row-fenced}

module _ (id : String) (n : ℕ) where
  -- The job runs another attempt, or none.
  abbrev pub IsOver : Job → Type 0
  IsOver j = (j.state ≢ running) ⊎ (j.attempt ≢ n)

  -- No job of the id runs the attempt.
  abbrev pub IsStale : Store → Type 0
  IsStale s = All (λ j. j.id ≡ id → IsOver j) s.jobs

  found-IsOver :
      (s : Store) (j : Job) → IsStale s → find (λ (k : Job). k.id == id) s.jobs ≡ some j → IsOver j
  found-IsOver s j h e =
      let (over, same) =
        All-find (λ j. j.id ≡ id → IsOver j) (λ (k : Job). k.id == id) s.jobs j e h in
      over (ground (arith, same))

  complete-malformed :
      (res : Result) (s : Store)
      → is_reportable res.status res.failure_kind ≡ false
      → final (complete id n res s) ≡ s
  unfolding complete ◌>>=◌ guard throw
  complete-malformed res s e = rw e refl

  complete-missing :
      (res : Result) (s : Store) → get_job id s ≡ err not_found s → final (complete id n res s) ≡ s
  unfolding complete ◌>>=◌ guard throw tx
  complete-missing res s e = ground (arith, e)

  complete-unchanged : (res : Result) (s : Store) → IsStale s → final (complete id n res s) ≡ s
  unfolding is_terminal
  complete-unchanged res s h = elim (Bool-cases (is_reportable res.status res.failure_kind)) [
    | inr r ↦ complete-malformed res s r
    | inl r ↦ elim (Option-cases (find (λ (j : Job). j.id == id) s.jobs)) [
      | inl f ↦ complete-missing res s (get_job-none id s f)
      | inr (j, f) ↦
          let over = found-IsOver s j h f in
          elim (Bool-cases (j.attempt == n && is_terminal j.state)) [
            | inl b ↦
                ap final
                  (complete_duplicate id n res j s f r (ground (arith, b)) (ground (arith, b)))
            | inr b ↦ ap final (complete_stale id n res j s f r (ground (arith, b, over)))
          ]
    ]
  ]

  append_logs-malformed :
      (cap : ℕ) (cs : List LogChunk) (s : Store)
      → any is_bad_seq cs ≡ true
      → final (append_logs cap id n cs s) ≡ s
  unfolding append_logs ◌>>=◌ guard throw
  append_logs-malformed cap cs s e = rw e refl

  append_logs-missing :
      (cap : ℕ) (cs : List LogChunk) (s : Store)
      → get_job id s ≡ err not_found s
      → final (append_logs cap id n cs s) ≡ s
  unfolding append_logs ◌>>=◌ guard throw tx
  append_logs-missing cap cs s e = ground (arith, e)

  append_logs-unchanged :
      (cap : ℕ) (cs : List LogChunk) (s : Store) → IsStale s → final (append_logs cap id n cs s) ≡ s
  append_logs-unchanged cap cs s h = elim (Bool-cases (any is_bad_seq cs)) [
    | inl b ↦ append_logs-malformed cap cs s b
    | inr b ↦ elim (Option-cases (find (λ (j : Job). j.id == id) s.jobs)) [
      | inl f ↦ append_logs-missing cap cs s (get_job-none id s f)
      | inr (j, f) ↦
          ap final (append_logs_stale cap id n cs j s f b (ground (arith, found-IsOver s j h f)))
    ]
  ]

module _ {O : Type 0} (blobs : Blobs O) (sha256 : List ℕ → String) where
  finish_upload-unchanged :
      (u : Upload) (n : ℕ) (key : List ℕ) (s : Store) (o : O)
      → IsStale u.job_id n s
      → (finish_upload blobs sha256 u n key s o).store ≡ s
  unfolding finish_upload
  finish_upload-unchanged u n key s o h =
      elim (Option-cases (find (λ (j : Job). j.id == u.job_id) s.jobs)) [
        | inl f ↦
            ap (λ x. (by_row blobs sha256 key o x).store)
              (record_row-missing blobs sha256 u s n (get_job-none u.job_id s f))
        | inr (j, f) ↦
            let shut : runs_attempt n j ≡ false = ground (arith, found-IsOver u.job_id n s j h f) in
            ap (λ x. (by_row blobs sha256 key o x).store)
              (record_row-fenced blobs sha256 u s n j (get_job-of u.job_id s j f) shut)
      ]

  -- Where no job under an id runs an attempt (it runs another, has its verdict, waits, or is gone), nothing
  -- that a runner sends for it changes the store, well formed or not: no report, no batch of log chunks, and
  -- no upload of an artifact whose bytes were put before.
  pub stale-unchanged :
      (u : Upload) (n cap : ℕ) (res : Result) (cs : List LogChunk) (key : List ℕ) (s : Store)
      (o : O)
      → IsStale u.job_id n s
      → (final (complete u.job_id n res s) ≡ s)
        × (final (append_logs cap u.job_id n cs s) ≡ s)
        × ((finish_upload blobs sha256 u n key s o).store ≡ s)
  stale-unchanged u n cap res cs key s o h = (
    complete-unchanged u.job_id n res s h,
    append_logs-unchanged u.job_id n cap cs s h,
    finish_upload-unchanged u n key s o h,
  )
