-- ===== src/Store/Logs.antt =====
-- internal/store/logs.go
use quarry.Base.{
  ℕ, ◌+◌, String, List, [], ◌∷◌, ◌++◌, Bool, true, false, ◌&&◌, ◌==◌, ℕ-eq, String-eq, ltb,
  if◌then◌else◌, length, select, any, sort_on, map,
}
use quarry.Store.Types.{LogRow, LogChunk}
use quarry.Store.Monad.{ok, M}

abbrev pub is_chunk_of : String → ℕ → LogRow → Bool
is_chunk_of job_id attempt r = r.job_id == job_id && r.attempt == attempt

abbrev pub is_row : String → ℕ → ℕ → LogRow → Bool
is_row job_id attempt seq r = is_chunk_of job_id attempt r && r.seq == seq

abbrev pub log_row : String → ℕ → ℕ → List ℕ → LogRow
log_row job_id attempt seq bytes = record {
  job_id = job_id;
  attempt = attempt;
  seq = seq;
  chunk = bytes;
}

-- INSERT OR IGNORE: a chunk whose (job, attempt, seq) is stored is ignored.
unfoldable pub insert_log_chunk : String → ℕ → ℕ → List ℕ → M Bool
insert_log_chunk job_id attempt seq bytes s =
    if any (is_row job_id attempt seq) s.log_chunks
    then ok false s
    else ok true (record s { log_chunks = s.log_chunks ++ log_row job_id attempt seq bytes ∷ [] })

unfoldable pub sum_bytes : List LogRow → ℕ
sum_bytes [] = 0
sum_bytes (r ∷ rs) = length r.chunk + sum_bytes rs

unfoldable pub log_bytes : String → ℕ → M ℕ
unfolding sum_bytes
log_bytes job_id attempt s = ok (sum_bytes (select (is_chunk_of job_id attempt) s.log_chunks)) s

abbrev pub chunk_of : LogRow → LogChunk
chunk_of r = record { seq = r.seq; chunk = r.chunk }

-- ORDER BY seq
unfoldable pub list_log_chunks : String → ℕ → ℕ → M (List LogChunk)
list_log_chunks job_id attempt after s =
    ok
      (map chunk_of (
        sort_on (λ r. r.seq)
          (select (λ r. is_chunk_of job_id attempt r && ltb after r.seq) s.log_chunks)))
      s
