-- ===== src/Api/Runner.antt =====
-- internal/api/runner.go and logs.go: the handlers of the runner protocol, and the paging of logs.
use quarry.Base.{
  ℤ, pos, ℕ, String, String-eq, ℕ-eq, List, [], ◌∷◌, Option, none, some, ◌==◌, if◌then◌else◌,
}
use quarry.Store.Types.{Job, LogChunk}
use quarry.Store.Monad.{Store, Outcome, ok, err, Error, fenced, not_found, invalid}
use quarry.Store.Jobs.{get_job}
use quarry.Store.Logs.{list_log_chunks}
use quarry.Scheduler.Types.{Scheduler, Spec}
use quarry.Scheduler.Claim.{RunnerInfo, claim}
use quarry.Scheduler.Heartbeat.{JobRef, Directive, heartbeat}
use quarry.Scheduler.Complete.{Result, complete}
use quarry.Scheduler.Logs.{append_logs}
use quarry.Api.Artifacts.{positive}

-- What decodeBody finds: more bytes than its limit, bytes that it cannot read or decode, or a request.
pub data Body (A : Type 0) : Type 0 where
  too_large unreadable : Body A
  decoded : A → Body A

-- A reply: the HTTP status, what is written as JSON, and the store after it.
pub record Response (A : Type 0) : Type 0 where
  pub code : ℕ
  pub body : Option A
  pub store : Store

pub record ClaimedJob : Type 0 where
  pub job : Job
  pub lease_ttl_ms : ℕ

pub record HeartbeatRequest : Type 0 where
  pub runner_id : String
  pub jobs : List JobRef

pub record CompleteRequest : Type 0 where
  pub runner_id : String
  pub attempt : ℤ
  pub result : Result

pub record LogsRequest : Type 0 where
  pub runner_id : String
  pub attempt : ℤ
  pub chunks : List LogChunk

module _ {A : Type 0} where
  abbrev pub refuse : ℕ → Store → Response A
  refuse code s = record { code = code; body = none; store = s }

  abbrev pub answer : ℕ → A → Store → Response A
  answer code a s = record { code = code; body = some a; store = s }

  abbrev pub with_body : {B : Type 0} → Body B → (B → Store → Response A) → Store → Response A
  with_body too_large f s = refuse 413 s
  with_body unreadable f s = refuse 400 s
  with_body (decoded b) f s = f b s

  -- runner_id and a positive attempt are required.
  abbrev pub with_attempt : String → Option ℕ → (ℕ → Store → Response A) → Store → Response A
  with_attempt runner none f s = refuse 400 s
  with_attempt runner (some n) f s = if runner == "" then refuse 400 s else f n s

-- The statuses of errors: the fence, an unknown job, a bad request, and any other.
abbrev pub error_code : Error → ℕ
error_code fenced = 409
error_code not_found = 404
error_code (invalid m) = 400
error_code e = 500

abbrev pub claim_reply : Scheduler → Outcome (Option Job) → Response ClaimedJob
claim_reply sched (err e s) = refuse 500 s
claim_reply sched (ok none s) = refuse 204 s
claim_reply sched (ok (some j) s) = answer 200 (record { job = j; lease_ttl_ms = sched.ttl }) s

unfoldable pub handle_claim :
    (String → Option Spec) → Scheduler → Body RunnerInfo → Store → Response ClaimedJob
handle_claim decode sched b s =
    with_body b
      (λ r t. if r.id == "" then refuse 400 t else claim_reply sched (claim decode sched r t)) s

abbrev pub heartbeat_reply : Outcome (List Directive) → Response (List Directive)
heartbeat_reply (err e s) = refuse 500 s
heartbeat_reply (ok ds s) = answer 200 ds s

unfoldable pub handle_heartbeat :
    Scheduler → Body HeartbeatRequest → Store → Response (List Directive)
handle_heartbeat sched b s =
    with_body b
      (λ r t.
        if r.runner_id == ""
        then refuse 400 t
        else heartbeat_reply (heartbeat sched r.runner_id r.jobs t))
      s

abbrev pub complete_reply : Outcome Job → Response Job
complete_reply (ok j s) = answer 200 j s
complete_reply (err e s) = refuse (error_code e) s

unfoldable pub handle_complete : String → Body CompleteRequest → Store → Response Job
handle_complete id b s =
    with_body b
      (λ r t.
        with_attempt r.runner_id (positive (some r.attempt))
          (λ n u. complete_reply (complete id n r.result u)) t)
      s

abbrev pub append_reply : Outcome (Unit {0}) → Response (Unit {0})
append_reply (ok t s) = refuse 204 s
append_reply (err e s) = refuse (error_code e) s

unfoldable pub handle_append_logs : ℕ → String → Body LogsRequest → Store → Response (Unit {0})
handle_append_logs log_cap id b s =
    with_body b
      (λ r t.
        with_attempt r.runner_id (positive (some r.attempt))
          (λ n u. append_reply (append_logs log_cap id n r.chunks u)) t)
      s

-- A page of an attempt's log, with the cursor for the next one.
pub record LogsPage : Type 0 where
  pub attempt : ℕ
  pub chunks : List LogChunk
  pub next : ℕ

-- The seq of the last chunk, or else the cursor that was given.
abbrev pub next_cursor : ℕ → List LogChunk → ℕ
next_cursor after [] = after
next_cursor after (c ∷ cs) = next_cursor c.seq cs

-- A query parameter: absent, not a number, or a number.
abbrev pub after_param : Option (Option ℤ) → Option ℕ
after_param none = some 0
after_param (some (some (pos n))) = some n
after_param (some z) = none

abbrev pub log_attempt : Option (Option ℤ) → Job → Option ℕ
log_attempt none j = some j.attempt
log_attempt (some z) j = positive z

abbrev pub page_reply : ℕ → ℕ → Outcome (List LogChunk) → Response LogsPage
page_reply n after (err e s) = refuse 500 s
page_reply n after (ok cs s) =
    answer 200 (record { attempt = n; chunks = cs; next = next_cursor after cs }) s

abbrev pub page_of : Job → Option ℕ → Option ℕ → Store → Response LogsPage
page_of j none after s = refuse 400 s
page_of j (some n) none s = refuse 400 s
page_of j (some n) (some after) s = page_reply n after (list_log_chunks j.id n after s)

abbrev pub store_code : Error → ℕ
store_code not_found = 404
store_code e = 500

abbrev pub logs_of_job : Option (Option ℤ) → Option (Option ℤ) → Outcome Job → Response LogsPage
logs_of_job attempt after (err e s) = refuse (store_code e) s
logs_of_job attempt after (ok j s) = page_of j (log_attempt attempt j) (after_param after) s

unfoldable pub handle_get_logs :
    String → Option (Option ℤ) → Option (Option ℤ) → Store → Response LogsPage
handle_get_logs id attempt after s = logs_of_job attempt after (get_job id s)
