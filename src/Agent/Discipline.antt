-- ===== src/Agent/Discipline.antt =====
-- runAttempt: the order that its actions must keep, and when an attempt was overtaken.
use quarry.Base.{
  find, ltb, ℕ, suc, pos, negsuc, not, ◌==◌, ℕ-eq, List, [], ◌∷◌, ◌++◌, Option, none, some, Bool,
  true, false, ◌&&◌, ◌≡◌, refl, ap, ◌∙◌, arith, Bool-cases, inl, inr, if◌then◌else◌,
}
use quarry.Scheduler.Complete.{Result, is_reportable}
use quarry.Agent.Attempt.{
  Cause, timed_out, cancelled, aborted, shut_down, is_superseded, sends, is_end, upload_error,
  Uploaded, uploaded, superseded, lost, Ran, exited, broke, Work, Action, enter, make_dir, execute,
  send, remove_dir, leave, close, report, is_clean_exit, is_abort, is_some, exec_error, ran_error,
  cause, is_aborted, run_attempt,
}

-- How far an attempt is, with whether its artifact directory exists.
pub data Stage : Type 0 where
  outside inside finished flushed discarded reported gone : Stage

pub record Place : Type 0 where
  pub stage : Stage
  pub dir : Bool

abbrev pub placed : Stage → Bool → Place
placed st d = record { stage = st; dir = d }

abbrev pub acceptable : Result → Bool
acceptable r = is_reportable r.status r.failure_kind

abbrev pub agrees : Bool → Bool → Bool
agrees true b = b
agrees false b = not b

-- The discipline: nothing happens outside the registration; the log is flushed after the last output
-- and before the report; the log is discarded exactly if the attempt was overtaken, and then there is no
-- report; any other attempt has one, of a kind that the server takes; the directory exists while files are
-- sent, and is gone at the end.
abbrev pub move : Bool → Place → Action → Option Place
move o p enter = elim p.stage [ outside ↦ some (placed inside false) | _ ↦ none ]
move o p make_dir = elim p.stage [ inside ↦ some (placed inside true) | _ ↦ none ]
move o p execute = elim p.stage [ inside ↦ some (placed finished p.dir) | _ ↦ none ]
move o p send = elim p.stage [ finished ↦ (if p.dir then some p else none) | _ ↦ none ]
move o p (close b) = elim p.stage [
  | finished ↦ (if agrees b o then some (placed (if b then discarded else flushed) p.dir) else none)
  | _ ↦ none
]
move o p (report r) = elim p.stage [
  | inside ↦ (if acceptable r then some (placed reported p.dir) else none)
  | flushed ↦ (if acceptable r then some (placed reported p.dir) else none)
  | _ ↦ none
]
move o p remove_dir = elim p.stage [
  | reported ↦ (if p.dir then some (placed reported false) else none)
  | discarded ↦ (if p.dir then some (placed discarded false) else none)
  | _ ↦ none
]
move o p leave = elim p.stage [
  | reported ↦ (if p.dir then none else some (placed gone false))
  | discarded ↦ (if p.dir then none else some (placed gone false))
  | _ ↦ none
]

abbrev pub follow_on : Bool → List Action → Option Place → Option Place
follow_on o [] p = p
follow_on o (a ∷ actions) none = none
follow_on o (a ∷ actions) (some p) = follow_on o actions (move o p a)

abbrev pub exits_zero : Ran → Bool
exits_zero (exited (pos ℕ.zero) oom) = true
exits_zero r = false

-- The executor or the upload of the artifacts has failed.
abbrev pub fails : Ran → Bool → Uploaded → Bool
fails (broke m) declares u = true
fails (exited (pos ℕ.zero) oom) true uploaded = false
fails (exited (pos ℕ.zero) oom) true u = true
fails (exited c oom) declares u = false

-- The first end of the contexts; a job without a timeout does not time out.
abbrev pub first_end : ℕ → List Cause → Option Cause
first_end timeout [] = none
first_end timeout (timed_out ∷ cs) =
    let more = first_end timeout cs in if timeout == 0 then more else some timed_out
first_end timeout (c ∷ cs) = some c

abbrev pub is_fenced : Uploaded → Bool
is_fenced (superseded m) = true
is_fenced u = false

-- The server gave the attempt to another: it said so before anything else ended the attempt, or else to the
-- upload.
abbrev pub by_server : Option Cause → Bool → Bool
by_server none fenced = fenced
by_server (some aborted) fenced = true
by_server (some c) fenced = false

abbrev pub is_overtaken : Work → Bool
is_overtaken w =
    fails w.ran w.declares w.upload
    && by_server (first_end w.timeout w.ends)
        (exits_zero w.ran && (w.declares && is_fenced w.upload))

abbrev pub Follows : Work → Type 0
Follows w =
    follow_on (is_overtaken w) (run_attempt w) (some (placed outside false))
    ≡ some (placed gone false)

fails-exec_error : (w : Work) → is_some (exec_error w) ≡ fails w.ran w.declares w.upload
fails-exec_error w = by_parts w.ran w.declares w.upload
  where
    by_parts :
        (r : Ran) (d : Bool) (u : Uploaded)
        → is_some (if is_clean_exit r && d then upload_error u else ran_error r) ≡ fails r d u
    by_parts (broke m) d u = refl
    by_parts (exited (pos ℕ.zero) oom) true uploaded = refl
    by_parts (exited (pos ℕ.zero) oom) true (superseded m) = refl
    by_parts (exited (pos ℕ.zero) oom) true (lost m) = refl
    by_parts (exited (pos ℕ.zero) oom) false u = refl
    by_parts (exited (pos (suc n)) oom) d u = refl
    by_parts (exited (negsuc n) oom) d u = refl

sent_fenced :
    (r : Ran) (d : Bool) (u : Uploaded)
    → ((is_clean_exit r && d) && is_superseded u) ≡ (exits_zero r && (d && is_fenced u))
sent_fenced (broke m) d u = refl
sent_fenced (exited (pos ℕ.zero) oom) true uploaded = refl
sent_fenced (exited (pos ℕ.zero) oom) true (superseded m) = refl
sent_fenced (exited (pos ℕ.zero) oom) true (lost m) = refl
sent_fenced (exited (pos ℕ.zero) oom) false u = refl
sent_fenced (exited (pos (suc n)) oom) d u = refl
sent_fenced (exited (negsuc n) oom) d u = refl

cause-first_end :
    (w : Work) (es : List Cause) (fenced : Bool)
    → is_abort (find (is_end w) (es ++ (if fenced then aborted ∷ [] else [])))
      ≡ by_server (first_end w.timeout es) fenced
unfolding find
cause-first_end w [] true = refl
cause-first_end w [] false = refl
cause-first_end w (timed_out ∷ es) b = elim (Bool-cases (w.timeout == 0)) [
  | inl e ↦
      let no : ltb 0 w.timeout ≡ false = ground (arith, e) in
      rw (e, no, find) (cause-first_end w es b)
  | inr e ↦ let yes : ltb 0 w.timeout ≡ true = ground (arith, e) in rw (e, yes) refl
]
cause-first_end w (cancelled ∷ es) b = refl
cause-first_end w (aborted ∷ es) b = refl
cause-first_end w (shut_down ∷ es) b = refl

-- The code's verdict of an abort is this one.
pub is_aborted-is_overtaken : (w : Work) → is_aborted w ≡ is_overtaken w
unfolding is_aborted cause
is_aborted-is_overtaken w =
    ap (λ x. x && is_abort (cause w)) (fails-exec_error w)
    ∙ ap (λ x. fails w.ran w.declares w.upload && x)
        (cause-first_end w w.ends (sends w && is_superseded w.upload)
          ∙ ap (by_server (first_end w.timeout w.ends)) (sent_fenced w.ran w.declares w.upload))
