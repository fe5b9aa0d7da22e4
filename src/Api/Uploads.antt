-- ===== src/Api/Uploads.antt =====
-- An artifact that was uploaded is downloaded again.
use quarry.Base.{
  pos, ◌≢◌, ◌⊎◌, ℕ, String, List, none, some, true, false, ◌==◌, ℕ-eq, String-eq, if◌then◌else◌,
  find, ◌≡◌, refl, sym, ap, ◌∙◌, arith, Bool-cases, Option-cases, inl, inr,
}
use quarry.Store.Types.{Artifact, Job, running}
use quarry.Store.Monad.{Store, ok, err, throw, not_found, fenced, final, ◌>>=◌, guard, return, tx}
use quarry.Store.Rules.{bind-ok}
use quarry.Store.Jobs.{get_job}
use quarry.Store.Artifacts.{
  upsert_artifact, get_artifact, found, is_artifact, created, get_artifact-upsert_artifact,
}
use quarry.Api.Artifacts.{
  Status, Upload, magnitude, runs_attempt, key_of, bytes_of, stored, Blobs, pending, Reply, served,
  begin_upload, row_of, record_row, record_for, finish_upload, download,
}
use quarry.Api.Admission.{get_job-found, begin_upload-Admitted}
use quarry.Api.Rows.{
  holds_job, find-any, tx-ok, upsert_returns, upsert_jobs, upsert_frame, get_job-of, get_job-none,
  get_artifact-of,
}

-- The row of an upload: its job, attempt and path, the length that it declared, the hash of its bytes, its
-- type or else the default one, and the time.
pub record IsRowOf (sha256 : List ℕ → String) (u : Upload) (n time : ℕ) (a : Artifact)
    : Type 0 where
  pub job : a.job_id ≡ u.job_id
  pub attempt : a.attempt ≡ n
  pub path : a.path ≡ u.path
  pub length : u.size ≡ pos a.size_bytes
  pub hash : a.sha256 ≡ sha256 u.body
  pub typed : u.content_type ≢ "" → a.content_type ≡ u.content_type
  pub untyped : u.content_type ≡ "" → a.content_type ≡ "application/octet-stream"
  pub dated : a.created_at ≡ time

module _ {O : Type 0} (blobs : Blobs O) (sha256 : List ℕ → String) where
  record_row-ok :
      (u : Upload) (s : Store) (n : ℕ) (j : Job)
      → get_job u.job_id s ≡ ok j s
      → runs_attempt n j ≡ true
      → holds_job u.job_id s ≡ true
      → record_row blobs sha256 u n s ≡ ok tt (final (upsert_artifact (row_of blobs sha256 u n) s))
  unfolding record_row tx ◌>>=◌ guard return
  record_row-ok u s n j g r h =
      let t = final (upsert_artifact (row_of blobs sha256 u n) s) in
      let fence : record_for blobs sha256 u n j s ≡ ok tt t =
        rw r (upsert_returns (row_of blobs sha256 u n) s h) in
      tx-ok (get_job u.job_id >>= record_for blobs sha256 u n) s tt t
        (bind-ok (get_job u.job_id) (record_for blobs sha256 u n) s g ∙ fence)

  row_of-IsRowOf :
      (u : Upload) (n time : ℕ)
      → u.size ≡ pos (magnitude u.size)
      → IsRowOf sha256 u n time (created (row_of blobs sha256 u n) time)
  row_of-IsRowOf u n time e = record {
    job = refl;
    attempt = refl;
    path = refl;
    length = e;
    hash = refl;
    typed = λ t. ground (arith, t);
    untyped = λ t. ground (arith, t);
    dated = refl;
  }

  -- The row that a transaction writes is read under its key.
  row_reads :
      (u : Upload) (n : ℕ) (s : Store)
      → holds_job u.job_id s ≡ true
      → let t = final (upsert_artifact (row_of blobs sha256 u n) s) in
        get_artifact u.job_id n u.path t ≡ ok (created (row_of blobs sha256 u n) (s.clock 0)) t
  row_reads u n s h =
      let a = row_of blobs sha256 u n in
      let t = final (upsert_artifact a s) in
      let mine : is_artifact u.job_id n u.path a ≡ true = ground arith in
      get_artifact-of u.job_id n u.path t (created a (s.clock 0)) (
        get_artifact-upsert_artifact s a u.job_id n u.path h
        ∙ ap
            (λ b.
              if b then some (created a (s.clock 0)) else found (get_artifact u.job_id n u.path s))
            mine)

  -- An upload whose Put has succeeded, with nothing between, is answered with "created"; the same attempt
  -- and path are then served with its bytes and with a row that has its length, its hash, its type and the
  -- time. The artifact store reads back what was put.
  pub download-finish_upload :
      ((k b : List ℕ) (z : ℕ) (o o' : O)
        → blobs.put k b z o ≡ stored o'
        → blobs.read k o' ≡ bytes_of b)
      → (u : Upload) (s : Store) (o : O) (n : ℕ) (key : List ℕ) (o' : O)
      → begin_upload blobs sha256 u s o ≡ pending n key o'
      → let r = finish_upload blobs sha256 u n key s o' in
        (r.status ≡ Status.created)
        × (a : Artifact) × (download blobs sha256 u.job_id (some u.attempt) u.path r.store r.objects
            ≡ served a u.body)
        × IsRowOf sha256 u n (s.clock 0) a
  unfolding finish_upload download
  download-finish_upload law u s o n key o' e =
      let d = begin_upload-Admitted blobs sha256 u s o n key o' e in
      let (t, f) = get_job-found u.job_id s d.owner s d.job in
      let (h, i) = find-any u.job_id s.jobs d.owner f in
      let a = row_of blobs sha256 u n in
      let s' = final (upsert_artifact a s) in
      let w = record_row-ok u s n d.owner d.job d.runs h in
      let owner : get_job u.job_id s' ≡ ok d.owner s' =
        get_job-of u.job_id s' d.owner
          (ap (find (λ (j : Job). j.id == u.job_id)) (upsert_jobs a s h) ∙ f) in
      let row : get_artifact d.owner.id n u.path s' ≡ ok (created a (s.clock 0)) s' =
        ap (λ x. get_artifact x n u.path s') i ∙ row_reads u n s h in
      let bytes : blobs.read (key_of d.owner n u.path) o' ≡ bytes_of u.body =
        ap (λ k. blobs.read k o') (sym d.key_is) ∙ law key u.body (magnitude u.size) o o' d.put in
      rw (w, owner, d.attempt, d.valid, row, bytes)
        (refl, created a (s.clock 0), refl, row_of-IsRowOf u n (s.clock 0) d.sized)

  pub record_row-fenced :
      (u : Upload) (s : Store) (n : ℕ) (j : Job)
      → get_job u.job_id s ≡ ok j s
      → runs_attempt n j ≡ false
      → record_row blobs sha256 u n s ≡ err fenced s
  unfolding record_row tx ◌>>=◌ guard throw
  record_row-fenced u s n j g r =
      let refusal : record_for blobs sha256 u n j s ≡ err fenced s = rw r refl in
      ap (λ o. elim o [ ok a t ↦ ok a t | err e t ↦ err e (record s { clock = t.clock }) ])
        (bind-ok (get_job u.job_id) (record_for blobs sha256 u n) s g ∙ refusal)

  pub record_row-missing :
      (u : Upload) (s : Store) (n : ℕ)
      → get_job u.job_id s ≡ err not_found s
      → record_row blobs sha256 u n s ≡ err not_found s
  unfolding record_row tx ◌>>=◌
  record_row-missing u s n g =
      ap (λ o. elim o [ ok a t ↦ ok a t | err e t ↦ err e (record s { clock = t.clock }) ])
        (ap (λ o. elim o [ ok j t ↦ record_for blobs sha256 u n j t | err e t ↦ err e t ]) g)

  fence_open : (n : ℕ) (j : Job) → runs_attempt n j ≡ true → (j.state ≡ running) × (j.attempt ≡ n)
  fence_open n j r = (ground (arith, r), ground (arith, r))

  fence_shut : (n : ℕ) (j : Job) → runs_attempt n j ≡ false → (j.state ≢ running) ⊎ (j.attempt ≢ n)
  fence_shut n j r = ground (arith, r)

  -- How an upload ends. With a row, where the job under the id runs the attempt at the time of the
  -- transaction: no other table changes. Without one, where it does not run the
  -- attempt or is gone: the store is as it was, and a delete of the object was tried.
  pub data Finished (u : Upload) (n : ℕ) (key : List ℕ) (s : Store) (o : O) (r : Reply O)
      : Type 0 where
    recorded :
        (j : Job)
        → find (λ (k : Job). k.id == u.job_id) s.jobs ≡ some j
        → j.state ≡ running
        → j.attempt ≡ n
        → r.status ≡ Status.created
        → r.objects ≡ o
        → (a : Artifact) → get_artifact u.job_id n u.path r.store ≡ ok a r.store
        → IsRowOf sha256 u n (s.clock 0) a
        → r.store ≡ record s { clock = r.store.clock; artifacts = r.store.artifacts }
        → Finished u n key s o r
    overtaken :
        (j : Job)
        → find (λ (k : Job). k.id == u.job_id) s.jobs ≡ some j
        → (j.state ≢ running) ⊎ (j.attempt ≢ n)
        → r ≡ record { status = Status.conflict; store = s; objects = blobs.delete key o }
        → Finished u n key s o r
    orphaned :
        find (λ (k : Job). k.id == u.job_id) s.jobs ≡ none
        → r ≡ record { status = Status.missing; store = s; objects = blobs.delete key o }
        → Finished u n key s o r

  -- At whatever time the transaction of an upload with a known length comes, it is recorded exactly if the
  -- job then runs the attempt, with the upload's length, hash and type and the time. If the job runs another
  -- or has ended, the answer is a conflict, and if it is gone, not found: then the store is as it was and a
  -- delete of the object is tried.
  pub finish_upload-Finished :
      (u : Upload) (n m : ℕ) (key : List ℕ) (s : Store) (o : O)
      → u.size ≡ pos m
      → Finished u n key s o (finish_upload blobs sha256 u n key s o)
  unfolding finish_upload
  finish_upload-Finished u n m key s o e =
      elim (Option-cases (find (λ (j : Job). j.id == u.job_id) s.jobs)) [
        | inl f ↦
            let g : get_job u.job_id s ≡ err not_found s = get_job-none u.job_id s f in
            orphaned f (rw (record_row-missing u s n g) refl)
        | inr (j, f) ↦
            let g = get_job-of u.job_id s j f in
            elim (Bool-cases (runs_attempt n j)) [
              | inl r ↦
                  let h = (find-any u.job_id s.jobs j f).0 in
                  let sized : u.size ≡ pos (magnitude u.size) =
                    e ∙ sym (ap (λ z. pos (magnitude z)) e) in
                  rw (record_row-ok u s n j g r h) (
                    recorded j f (fence_open n j r).0 (fence_open n j r).1 refl refl
                      (created (row_of blobs sha256 u n) (s.clock 0)) (row_reads u n s h)
                      (row_of-IsRowOf u n (s.clock 0) sized)
                      (upsert_frame (row_of blobs sha256 u n) s h))
              | inr r ↦ overtaken j f (fence_shut n j r) (rw (record_row-fenced u s n j g r) refl)
            ]
      ]
