-- ===== src/Agent/Attempt.antt =====
-- internal/agent/agent.go, runAttempt: one claimed attempt, from its start to its report.
use Prim.Native.String.{◌++◌ as ◌<>◌}
use quarry.Base.{
  ℤ, pos, negsuc, is_zero, ℕ, suc, ◌-◌, String, List, [], ◌∷◌, ◌++◌, Option, none, some, Bool, true,
  false, ◌&&◌, ltb, any, find, decimal, if◌then◌else◌,
}
use quarry.Store.Types.{FailureKind, infra, other}
use quarry.Scheduler.Complete.{Result, succeeded, failed}

-- context.Cause: what ended the executor's context. `shut_down` is the end of Run's context.
pub data Cause : Type 0 where
  timed_out cancelled aborted shut_down : Cause

-- What the executor returns: an exit code with whether memory ran out, or an error.
pub data Ran : Type 0 where
  exited : ℤ → Bool → Ran
  broke : String → Ran

-- What uploadArtifacts returns: nothing, the fence, or another error.
pub data Uploaded : Type 0 where
  uploaded : Uploaded
  superseded : String → Uploaded
  lost : String → Uploaded

-- One attempt's surroundings: the error of spec(), whether artifacts are declared, the error of
-- MkdirTemp, the timeout, what the executor and the upload return, what ends the contexts before the
-- verdict (in this order; the abort of a fenced upload comes after them), and whether Run's context
-- ends between the verdict and the report.
pub record Work : Type 0 where
  pub spec_error : Option String
  pub declares : Bool
  pub dir_error : Option String
  pub timeout : ℕ
  pub ran : Ran
  pub upload : Uploaded
  pub ends : List Cause
  pub shut_later : Bool

-- What the goroutine does that others see. `close` discards the buffer of an aborted attempt.
pub data Action : Type 0 where
  enter make_dir execute send remove_dir leave : Action
  close : Bool → Action
  report : Result → Action

abbrev text_at : ℕ → List String → String
text_at n [] = ""
text_at ℕ.zero (t ∷ ts) = t
text_at (suc n) (t ∷ ts) = text_at n ts

abbrev texts : List ℕ → String
texts [] = ""
texts (d ∷ ds) =
    text_at (d - 48) ("0" ∷ "1" ∷ "2" ∷ "3" ∷ "4" ∷ "5" ∷ "6" ∷ "7" ∷ "8" ∷ "9" ∷ []) <> texts ds

-- fmt's %d.
abbrev pub int_text : ℤ → String
int_text (pos n) = texts (decimal n)
int_text (negsuc n) = "-" <> texts (decimal (suc n))

abbrev pub failure : FailureKind → String → Result
failure k msg = record { status = failed; failure_kind = k; exit_code = none; error = msg }

abbrev pub exit_failure : ℤ → Bool → Result
exit_failure c oom = record {
  status = failed;
  failure_kind = FailureKind.exit_code;
  exit_code = some c;
  error = "exit code " <> (int_text c <> (if oom then " (out of memory)" else ""));
}

-- An empty kind is left out of the request.
abbrev pub success : Result
success = record { status = succeeded; failure_kind = other ""; exit_code = none; error = "" }

abbrev pub exit_result : Ran → Result
exit_result (exited c oom) = if is_zero c then success else exit_failure c oom
exit_result (broke m) = failure infra m

abbrev pub upload_error : Uploaded → Option String
upload_error uploaded = none
upload_error (superseded m) = some ("upload artifacts: " <> m)
upload_error (lost m) = some ("upload artifacts: " <> m)

abbrev pub is_clean_exit : Ran → Bool
is_clean_exit (exited c oom) = is_zero c
is_clean_exit (broke m) = false

abbrev pub is_superseded : Uploaded → Bool
is_superseded (superseded m) = true
is_superseded u = false

abbrev pub is_shutdown : Cause → Bool
is_shutdown shut_down = true
is_shutdown c = false

abbrev pub is_abort : Option Cause → Bool
is_abort (some aborted) = true
is_abort c = false

abbrev pub ran_error : Ran → Option String
ran_error (exited c oom) = none
ran_error (broke m) = some m

abbrev pub is_some : Option String → Bool
is_some (some m) = true
is_some none = false

abbrev pub reports : Option Result → List Action
reports none = []
reports (some r) = report r ∷ []

module _ (w : Work) where
  -- The artifacts are uploaded only after exit code 0.
  abbrev pub sends : Bool
  sends = is_clean_exit w.ran && w.declares

  -- execErr at the verdict.
  abbrev pub exec_error : Option String
  exec_error = if sends then upload_error w.upload else ran_error w.ran

  -- The deadline is set only for a positive timeout.
  abbrev pub is_end : Cause → Bool
  is_end timed_out = ltb 0 w.timeout
  is_end c = true

  -- The first end is the cause: a context keeps it.
  unfoldable pub cause : Option Cause
  unfolding find
  cause = find is_end (w.ends ++ (if sends && is_superseded w.upload then aborted ∷ [] else []))

  unfoldable pub is_aborted : Bool
  unfolding cause
  is_aborted = is_some exec_error && is_abort cause

  -- ctx.Err() != nil, after the flush.
  unfoldable pub is_shut : Bool
  unfolding any
  is_shut = if w.shut_later then true else any is_shutdown w.ends

  -- The switch, from its third case on; the second argument is execErr.
  abbrev pub by_error : Option String → Option Result
  by_error none = some (exit_result w.ran)
  by_error (some m) =
      if is_aborted
      then none
      else if is_shut
      then some (failure infra "runner shutting down")
      else some (failure infra m)

  abbrev pub by_cause : Option Cause → Option Result
  by_cause (some timed_out) = some (failure FailureKind.timeout "job timed out")
  by_cause (some cancelled) = some (failure FailureKind.cancelled "job cancelled by user")
  by_cause c = by_error exec_error

  -- What is reported; none for an aborted attempt.
  unfoldable pub to_report : Option Result
  unfolding cause is_aborted is_shut
  to_report = by_cause cause

  unfoldable pub execution : List Action
  unfolding to_report is_aborted
  execution = execute ∷ ((if sends then send ∷ [] else []) ++ close is_aborted ∷ reports to_report)

  abbrev pub by_dir : Option String → List Action
  by_dir (some m) = report (failure infra ("artifact dir: " <> m)) ∷ []
  by_dir none = make_dir ∷ (execution ++ remove_dir ∷ [])

  abbrev pub by_spec : Option String → List Action
  by_spec (some m) = report (failure infra m) ∷ []
  by_spec none = if w.declares then by_dir w.dir_error else execution

  unfoldable pub run_attempt : List Action
  unfolding execution
  run_attempt = enter ∷ (by_spec w.spec_error ++ leave ∷ [])
