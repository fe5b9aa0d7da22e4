-- ===== src/Store/Types.antt =====
-- internal/store/types.go, logs.go and migrations/*.sql: the rows of the tables. A nullable column
-- is an Option; ids and texts are strings, and times are Unix milliseconds.
use quarry.Base.{ℤ, ℕ, String, List, Option, Eq}

pub data RunState : Type 0 where
  pending running succeeded failed cancelled : RunState

pub data JobState : Type 0 where
  pending queued running succeeded failed cancelled skipped : JobState

-- The kinds of the protocol, and any other string that a runner may report.
pub data FailureKind : Type 0 where
  exit_code timeout infra lost_runner cancelled : FailureKind
  other : String → FailureKind

pub data CancelReason : Type 0 where
  user timeout : CancelReason

pub data RunnerState : Type 0 where
  online offline : RunnerState

unfoldable pub RunState-discrete : Discrete RunState
RunState-discrete = hlevel

unfoldable pub JobState-discrete : Discrete JobState
JobState-discrete = hlevel

unfoldable pub CancelReason-discrete : Discrete CancelReason
CancelReason-discrete = hlevel

unfoldable pub RunnerState-discrete : Discrete RunnerState
RunnerState-discrete = hlevel

instance abbrev pub RunState-eq : Eq RunState
RunState-eq = record { dec = RunState-discrete }

instance abbrev pub JobState-eq : Eq JobState
JobState-eq = record { dec = JobState-discrete }

instance abbrev pub RunnerState-eq : Eq RunnerState
RunnerState-eq = record { dec = RunnerState-discrete }

pub record Run : Type 0 where
  pub id : String
  pub source_key : String
  pub pipeline_yaml : String
  pub commit_sha : Option String
  pub ref : Option String
  pub trigger : String
  pub state : RunState
  pub created_at : ℕ
  pub started_at : Option ℕ
  pub finished_at : Option ℕ

pub record Job : Type 0 where
  pub id : String
  pub run_id : String
  pub name : String
  pub spec_json : String
  pub state : JobState
  pub attempt : ℕ
  pub max_attempts : ℕ
  pub runner_id : Option String
  pub lease_expires_at : Option ℕ
  pub failure_kind : Option FailureKind
  pub exit_code : Option ℤ
  pub error : Option String
  pub queued_at : ℕ
  pub started_at : Option ℕ
  pub finished_at : Option ℕ
  pub cancel_requested_at : Option ℕ
  pub cancel_reason : Option CancelReason

-- job_id cannot start until needs_job_id has succeeded.
pub record JobDep : Type 0 where
  pub job_id : String
  pub needs_job_id : String

-- A Go map from strings to strings: the first entry of a key counts.
abbrev pub Labels : Type 0
Labels = List (String × String)

pub record Runner : Type 0 where
  pub id : String
  pub name : String
  pub labels : Labels
  pub capacity : ℕ
  pub state : RunnerState
  pub version : String
  pub last_seen_at : ℕ
  pub registered_at : ℕ

-- One value of an event's JSON object.
pub data Detail : Type 0 where
  num : ℕ → Detail
  text : String → Detail
  code : Option ℤ → Detail
  kind : FailureKind → Detail
  reason : CancelReason → Detail
  run_state : RunState → Detail
  texts : List String → Detail

pub record Event : Type 0 where
  pub id : ℕ
  pub run_id : String
  pub job_id : Option String
  pub type : String
  pub detail : List (String × Detail)
  pub created_at : ℕ

-- A row of log_chunks; the data is a list of bytes.
pub record LogRow : Type 0 where
  pub job_id : String
  pub attempt : ℕ
  pub seq : ℕ
  pub chunk : List ℕ

-- store.LogChunk
pub record LogChunk : Type 0 where
  pub seq : ℕ
  pub chunk : List ℕ

pub record Artifact : Type 0 where
  pub job_id : String
  pub attempt : ℕ
  pub path : String
  pub size_bytes : ℕ
  pub sha256 : String
  pub content_type : String
  pub created_at : ℕ
