-- ===== src/Api/Artifacts.antt =====
-- internal/api/artifacts.go: the upload and the download of an artifact.
use quarry.Base.{
  ℕ, String, List, Option, none, some, Bool, true, false, ◌&&◌, ◌==◌, ℕ-eq, String-eq, ltb, not,
  if◌then◌else◌, ℤ, pos, negsuc, is_negative, codes, ◌*◌,
}
use quarry.Store.Types.{Artifact, Job, JobState-eq, running}
use quarry.Store.Monad.{
  Store, M, Outcome, ok, err, Error, not_found, fenced, ◌>>=◌, ◌>>◌, guard, tx,
}
use quarry.Store.Jobs.{get_job}
use quarry.Store.Artifacts.{upsert_artifact, get_artifact}
use quarry.Artifact.Path.{validate_path, job_key}

-- The statuses of the replies.
pub data Status : Type 0 where
  created bad_request no_length too_large missing conflict failed : Status

-- The attempt is none where strconv.Atoi fails; the size is the Content-Length, negative if unknown.
pub record Upload : Type 0 where
  pub job_id : String
  pub attempt : Option ℤ
  pub path : String
  pub size : ℤ
  pub content_type : String
  pub body : List ℕ

abbrev pub max_artifact_bytes : ℕ
max_artifact_bytes = 1024 * (1024 * 1024)

-- A positive attempt.
abbrev pub positive : Option ℤ → Option ℕ
positive (some (pos n)) = if n == 0 then none else some n
positive z = none

abbrev pub exceeds : ℤ → Bool
exceeds (pos n) = ltb max_artifact_bytes n
exceeds (negsuc n) = false

abbrev pub magnitude : ℤ → ℕ
magnitude (pos n) = n
magnitude (negsuc n) = 0

abbrev pub content_type_or : String → String
content_type_or t = if t == "" then "application/octet-stream" else t

abbrev pub is_valid : String → Bool
is_valid path = elim (validate_path (codes path)) [ none ↦ true | some e ↦ false ]

-- The checks before the job is read.
abbrev pub check_upload : Upload → Option Status
check_upload u =
    if not (is_valid u.path)
    then some bad_request
    else if is_negative u.size
    then some no_length
    else if exceeds u.size
    then some too_large
    else none

abbrev pub runs_attempt : ℕ → Job → Bool
runs_attempt n j = j.state == running && j.attempt == n

abbrev pub key_of : Job → ℕ → String → List ℕ
key_of j n path = job_key (codes j.run_id) (codes j.id) n (codes path)

-- What Put returns, with the objects after it: a body longer than its length, or another failure.
pub data Stored (O : Type 0) : Type 0 where
  stored too_long broken : O → Stored O

-- What Get and the reader that it returns give: the bytes, ErrNotFound, or another failure.
pub data Read : Type 0 where
  bytes_of : List ℕ → Read
  absent unread : Read

-- The artifact store: its three operations on the objects. A delete is tried: what it gives may still have
-- the object.
pub record Blobs (O : Type 0) : Type 0 where
  pub put : List ℕ → List ℕ → ℕ → O → Stored O
  pub delete : List ℕ → O → O
  pub read : List ℕ → O → Read

pub data Begun (O : Type 0) : Type 0 where
  refused : Status → O → Begun O
  pending : ℕ → List ℕ → O → Begun O

pub record Reply (O : Type 0) : Type 0 where
  pub status : Status
  pub store : Store
  pub objects : O

pub data Served : Type 0 where
  denied : Status → Served
  served : Artifact → List ℕ → Served

-- SHA-256 as hexadecimal digits is a parameter.
module _ {O : Type 0} (blobs : Blobs O) (sha256 : List ℕ → String) where
  abbrev pub by_put : ℕ → List ℕ → Stored O → Begun O
  by_put n key (stored o) = pending n key o
  by_put n key (too_long o) = refused bad_request o
  by_put n key (broken o) = refused failed o

  abbrev pub by_job : Upload → ℕ → O → Outcome Job → Begun O
  by_job u n o (err e s) = refused missing o
  by_job u n o (ok j s) =
      if runs_attempt n j
      then by_put n (key_of j n u.path) (blobs.put (key_of j n u.path) u.body (magnitude u.size) o)
      else refused conflict o

  abbrev pub by_check : Upload → ℕ → Store → O → Option Status → Begun O
  by_check u n s o (some st) = refused st o
  by_check u n s o none = by_job u n o (get_job u.job_id s)

  abbrev pub by_attempt : Upload → Store → O → Option ℕ → Begun O
  by_attempt u s o none = refused bad_request o
  by_attempt u s o (some n) = by_check u n s o (check_upload u)

  -- The handler up to the end of Put. Other requests may be served before it goes on.
  unfoldable pub begin_upload : Upload → Store → O → Begun O
  begin_upload u s o = by_attempt u s o (positive u.attempt)

  abbrev pub row_of : Upload → ℕ → Artifact
  row_of u n = record {
    job_id = u.job_id;
    attempt = n;
    path = u.path;
    size_bytes = magnitude u.size;
    sha256 = sha256 u.body;
    content_type = content_type_or u.content_type;
    created_at = 0;
  }

  abbrev pub record_for : Upload → ℕ → Job → M (Unit {0})
  record_for u n job = do guard (runs_attempt n job) fenced; upsert_artifact (row_of u n)

  unfoldable pub record_row : Upload → ℕ → M (Unit {0})
  record_row u n = tx (do job ← get_job u.job_id; record_for u n job)

  abbrev status_of : Error → Status
  status_of fenced = conflict
  status_of not_found = missing
  status_of e = failed

  abbrev pub by_row : List ℕ → O → Outcome (Unit {0}) → Reply O
  by_row key o (ok t s) = record { status = created; store = s; objects = o }
  by_row key o (err e s) = record { status = status_of e; store = s; objects = blobs.delete key o }

  -- The transaction, and the reply: without a row, a delete of the object is tried.
  unfoldable pub finish_upload : Upload → ℕ → List ℕ → Store → O → Reply O
  finish_upload u n key s o = by_row key o (record_row u n s)

  abbrev pub by_object : Artifact → Read → Served
  by_object a absent = denied missing
  by_object a unread = denied failed
  by_object a (bytes_of bytes) = served a bytes

  abbrev pub by_found : Job → ℕ → String → O → Outcome Artifact → Served
  by_found j n path o (err e s) = denied missing
  by_found j n path o (ok a s) = by_object a (blobs.read (key_of j n path) o)

  -- The attempt is the job's, where the query names none.
  abbrev pub attempt_param : Option (Option ℤ) → Job → Option ℕ
  attempt_param none j = some j.attempt
  attempt_param (some z) j = positive z

  abbrev pub by_path : Job → String → Store → O → Option ℕ → Served
  by_path j path s o none = denied bad_request
  by_path j path s o (some n) =
      if is_valid path then by_found j n path o (get_artifact j.id n path s) else denied bad_request

  abbrev pub by_owner : Option (Option ℤ) → String → Store → O → Outcome Job → Served
  by_owner z path s o (err e t) = denied missing
  by_owner z path s o (ok j t) = by_path j path s o (attempt_param z j)

  unfoldable pub download : String → Option (Option ℤ) → String → Store → O → Served
  download job_id z path s o = by_owner z path s o (get_job job_id s)
