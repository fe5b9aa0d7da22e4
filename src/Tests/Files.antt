-- ===== src/Tests/Files.antt =====
-- Artifact paths and rows, and the results at them.
use native.Mathlib.Decide.{ℕ_discrete}
use quarry.Base.{
  inl, length, ltb, pos, sym, ap, ◌∙◌, arith, find, List, Option, true, false, ◌==◌, decimal,
  digits, Bool, String, ℕ, String-discrete, String-eq, ℕ-eq, any, if◌then◌else◌, some, none, ◌≡◌,
  refl, codes, split,
}
use quarry.Store.Types.{Artifact, JobState-discrete}
use quarry.Store.Jobs.{get_job}
use quarry.Api.Artifacts.{
  Upload, Status, Stored, stored, too_long, broken, Blobs, Read, bytes_of, absent, begin_upload,
  pending, finish_upload, download, served,
}
use quarry.Api.Uploads.{download-finish_upload, finish_upload-Finished, Finished, IsRowOf}
use quarry.Store.Monad.{final}
use quarry.Store.Artifacts.{
  found, upsert_artifact, get_artifact, is_artifact, created, get_artifact-upsert_artifact,
}
use quarry.Artifact.Path.{is_text, validate_path, dot_dot, check_segments}
use quarry.Artifact.Key.{job_key_tells}
use quarry.Artifact.Plain.{is_text_self}
use quarry.Scheduler.Complete.{complete}
use quarry.Scheduler.Logs.{append_logs}
use quarry.Api.Stale.{IsStale, stale-unchanged}
use quarry.Tests.{table, differ, success, batch}

abbrev report : Artifact
report = record {
  job_id = "b";
  attempt = 1;
  path = "out/a.txt";
  size_bytes = 3;
  sha256 = "";
  content_type = "text/plain";
  created_at = 0;
}

above_refused : validate_path (codes "out/../a") ≡ some dot_dot
unfolding validate_path check_segments split any ℕ_discrete
above_refused = refl

job_key_tells_example :
    (codes "r" ≡ codes "r")
    × (codes "j" ≡ codes "j")
    × (◌≡◌ {A = ℕ} 12 12)
    × (codes "a/b" ≡ codes "a/b")
unfolding ℕ_discrete
job_key_tells_example =
    job_key_tells (codes "r") (codes "r") (codes "j") (codes "j") 12 12 (codes "a/b") (codes "a/b")
      (refl, tt) (refl, tt) (refl, tt) (refl, tt) refl

get_artifact-upsert_artifact_example :
    found (get_artifact "b" 1 "out/a.txt" (final (upsert_artifact report table))) ≡ (
      if is_artifact "b" 1 "out/a.txt" report
      then some (created report (table.clock 0))
      else found (get_artifact "b" 1 "out/a.txt" table))
unfolding any String-discrete
get_artifact-upsert_artifact_example =
    get_artifact-upsert_artifact table report "b" 1 "out/a.txt" refl

-- A store of objects as a function of the key.
abbrev Disk : Type 0
Disk = List ℕ → Option (List ℕ)

abbrev written : List ℕ → List ℕ → Disk → Disk
written k b o = λ x. if is_text x k then some b else o x

abbrev put_on : List ℕ → List ℕ → ℕ → Disk → Stored Disk
put_on k b n o =
    if length b == n
    then stored (written k b o)
    else if ltb n (length b)
    then too_long o
    else broken o

abbrev read_of : Option (List ℕ) → Read
read_of none = absent
read_of (some b) = bytes_of b

abbrev disk : Blobs Disk
disk = record {
  put = put_on;
  delete = λ k o x. if is_text x k then none else o x;
  read = λ k o. read_of (o k);
}

stored_injective : (o p : Disk) → stored o ≡ stored p → o ≡ p
stored_injective o p e = grind (arith, e)

put_on-reads :
    (k b : List ℕ) (n : ℕ) (o o' : Disk) → put_on k b n o ≡ stored o' → read_of (o' k) ≡ bytes_of b
put_on-reads k b n o o' e = ap read_of (go (length b == n) (ltb n (length b)) e)
  where
    go :
        (c d : Bool)
        → (if c then stored (written k b o) else if d then too_long o else broken o) ≡ stored o'
        → o' k ≡ some b
    go true d h =
        ap (λ (p : Disk). p k) (sym (stored_injective (written k b o) o' h))
        ∙ ap (λ c. if c then some b else o k) (is_text_self k)
    go false true h = absurd (grind (arith, h))
    go false false h = absurd (grind (arith, h))

abbrev upload : Upload
upload = record {
  job_id = "b";
  attempt = some (pos 1);
  path = "out/a.txt";
  size = pos 3;
  content_type = "text/plain";
  body = codes "abc";
}

-- A hash that tells short texts apart.
abbrev short_hash : List ℕ → String
short_hash b = if is_text b (codes "abc") then "ba7816bf" else "e3b0c442"

abbrev empty_disk : Disk
empty_disk = λ k. none

abbrev upload_key : List ℕ
upload_key = codes "runs/r/jobs/b/1/out/a.txt"

upload_pending :
    begin_upload disk short_hash upload table empty_disk
    ≡ pending 1 upload_key (written upload_key (codes "abc") empty_disk)
unfolding begin_upload get_job find validate_path check_segments split any decimal digits
    String-discrete ℕ_discrete JobState-discrete
upload_pending = refl

download-finish_upload_example :
    let r =
      finish_upload disk short_hash upload 1 upload_key table
        (written upload_key (codes "abc") empty_disk) in
    (r.status ≡ Status.created)
    × (a : Artifact) × (download disk short_hash "b"
          (some (some (pos 1)))
          "out/a.txt"
          r.store
          r.objects
        ≡ served a (codes "abc"))
    × IsRowOf short_hash upload 1 0 a
download-finish_upload_example =
    download-finish_upload disk short_hash put_on-reads upload table empty_disk 1 upload_key
      (written upload_key (codes "abc") empty_disk) upload_pending

finish_upload-Finished_example :
    Finished disk short_hash upload 1 upload_key table empty_disk
      (finish_upload disk short_hash upload 1 upload_key table empty_disk)
finish_upload-Finished_example =
    finish_upload-Finished disk short_hash upload 1 3 upload_key table empty_disk refl

-- The job has failed, and runs no attempt.
lint-IsStale : IsStale "l" 1 table
unfolding String-discrete
lint-IsStale = (
  (λ e. absurd (differ "b" "l" refl e)),
  (
    (λ e. absurd (differ "t" "l" refl e)),
    ((λ e. inl (λ h. ground (arith, h))), ((λ e. absurd (differ "d" "l" refl e)), tt)),
  ),
)

abbrev late : Upload
late = record upload { job_id = "l" }

stale-unchanged_example :
    (final (complete "l" 1 success table) ≡ table)
    × (final (append_logs 4 "l" 1 batch table) ≡ table)
    × ((finish_upload disk short_hash late 1 upload_key table empty_disk).store ≡ table)
stale-unchanged_example =
    stale-unchanged disk short_hash late 1 4 success batch upload_key table empty_disk lint-IsStale
