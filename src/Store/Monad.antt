-- ===== src/Store/Monad.antt =====
-- internal/store/store.go: the state behind a *Store, the code of one transaction, and Tx.
use quarry.Base.{
  ℕ, suc, String, List, Option, none, some, Bool, ◌==◌, ℕ-eq, String-eq, if◌then◌else◌,
}
use quarry.Store.Types.{Run, Job, JobState, JobDep, Runner, Event, LogRow, Artifact}

-- The metrics that a committed transaction updates: each job state entered, the started and
-- finished times of terminal attempts, the queued and started times of claims, and two counters.
pub record Metrics : Type 0 where
  pub entered : List JobState
  pub durations : List ℕ
  pub claims : List (ℕ × ℕ)
  pub lease_expirations : ℕ
  pub log_bytes : ℕ

-- The clock is the readings that are still to come, so two calls of now may differ.
pub record Store : Type 0 where
  pub clock : ℕ → ℕ
  pub runs : List Run
  pub jobs : List Job
  pub job_deps : List JobDep
  pub runners : List Runner
  pub events : List Event
  pub next_event : ℕ
  pub log_chunks : List LogRow
  pub artifacts : List Artifact
  pub metrics : Metrics

-- `invalid` is an InvalidResultError, and `internal` an error without a type.
-- `constraint` is a primary key, a unique index or a foreign key that refuses a row;
-- `out_of_fuel` is no error of the program: it marks a loop of the model whose fuel ran out.
pub data Error : Type 0 where
  not_found constraint fenced run_finished out_of_fuel : Error
  required invalid internal : String → Error

pub data Outcome (A : Type 0) : Type 0 where
  ok : A → Store → Outcome A
  err : Error → Store → Outcome A

abbrev pub M : Type 0 → Type 0
M A = Store → Outcome A

unfoldable pub return : {A : Type 0} → A → M A
return a s = ok a s

unfoldable pub throw : {A : Type 0} → Error → M A
throw e s = err e s

-- One reading of the clock.
unfoldable pub now : M ℕ
now s = ok (s.clock 0) (record s { clock = λ n. s.clock (suc n) })

infixl 5 ◌>>=◌ ◌>>◌
-- Opening this opens the basic actions too.
unfoldable pub ◌>>=◌ : {A B : Type 0} → M A → (A → M B) → M B
unfolding return throw now
◌>>=◌ m f s = elim (m s) [ ok a s' ↦ f a s' | err e s' ↦ err e s' ]

abbrev pub ◌>>◌ : {A B : Type 0} → M A → M B → M B
◌>>◌ m k = m >>= λ _. k

unfoldable pub guard : Bool → Error → M (Unit {0})
guard b e = if b then return tt else throw e

abbrev pub final : {A : Type 0} → Outcome A → Store
final (ok a s) = s
final (err e s) = s

-- An error rolls the tables back; the clock goes on.
unfoldable pub tx : {A : Type 0} → M A → M A
tx m s = elim (m s) [ ok a s' ↦ ok a s' | err e s' ↦ err e (record s { clock = s'.clock }) ]

-- NULL reads as 0 (sql.NullInt64), and "" is written as NULL (nullStr).
abbrev pub int64 : Option ℕ → ℕ
int64 none = 0
int64 (some n) = n

abbrev pub string_of : Option String → String
string_of none = ""
string_of (some t) = t

unfoldable pub null_str : String → Option String
null_str t = if t == "" then none else some t

unfoldable pub null_millis : ℕ → Option ℕ
null_millis n = if n == 0 then none else some n
