-- ===== src/Agent/Outcomes.antt =====
-- runAttempt: what each way to end is reported as.
use quarry.Base.{
  List, [], ◌∷◌, ◌++◌, Option, none, some, Bool, true, false, ◌&&◌, not, ◌≡◌, refl, ap, ◌∙◌, arith,
  Bool-cases, inl, inr, find, any, if◌then◌else◌, is_zero, String,
}
use quarry.Scheduler.Complete.{succeeded}
use quarry.Agent.Attempt.{
  Cause, timed_out, cancelled, aborted, shut_down, Ran, exited, broke, Uploaded, uploaded,
  superseded, lost, Work, Action, send, close, report, exit_result, is_clean_exit, is_some,
  exec_error, ran_error, upload_error, is_superseded, remove_dir, leave, sends, is_end, cause,
  is_aborted, by_cause, by_error, to_report, reports, execution, by_dir, by_spec, run_attempt,
}

abbrev pub is_success : Action → Bool
is_success (report r) = elim r.status [ succeeded ↦ true | _ ↦ false ]
is_success a = false

-- The ends that decide the report alone.
abbrev pub is_decisive : Option Cause → Bool
is_decisive (some timed_out) = true
is_decisive (some cancelled) = true
is_decisive c = false

abbrev pub is_uploaded : Uploaded → Bool
is_uploaded uploaded = true
is_uploaded u = false

-- The attempt started, ended with exit code 0 and all its artifacts sent, before any timeout or cancel.
abbrev pub has_succeeded : Work → Bool
has_succeeded w =
    not (is_some w.spec_error)
    && (not (w.declares && is_some w.dir_error)
        && (is_clean_exit w.ran
            && ((if w.declares then is_uploaded w.upload else true)
                && not (is_decisive (find (is_end w) w.ends)))))

any-append :
    (xs ys : List Action)
    → any is_success (xs ++ ys) ≡ (if any is_success xs then true else any is_success ys)
unfolding any
any-append [] ys = refl
any-append (x ∷ xs) ys = elim (Bool-cases (is_success x)) [
  | inl e ↦ rw (e, any) refl
  | inr e ↦ rw (e, any) (any-append xs ys)
]

append_nil : (xs : List Cause) → xs ++ [] ≡ xs
append_nil [] = refl
append_nil (x ∷ xs) = ap (λ ys. x ∷ ys) (append_nil xs)

clean_result : (r : Ran) → any is_success (reports (some (exit_result r))) ≡ is_clean_exit r
unfolding any
clean_result (exited c oom) = ground arith
clean_result (broke m) = refl

error_fails : (w : Work) (m : String) → any is_success (reports (by_error w (some m))) ≡ false
unfolding any
error_fails w m = ground arith

error_told :
    (w : Work) (m : Option String)
    → any is_success (reports (by_error w m)) ≡ (not (is_some m) && is_clean_exit w.ran)
error_told w none = clean_result w.ran
error_told w (some m) = error_fails w m

and_true : (a b : Bool) → (a && b) ≡ (a && (b && true))
and_true true true = refl
and_true true false = refl
and_true false b = refl

and_false : (a b : Bool) → false ≡ (a && (b && false))
and_false true true = refl
and_false true false = refl
and_false false b = refl

-- What is told of an execution is a success exactly without an error, at exit code 0 and no decisive end.
cause_told :
    (w : Work) (c : Option Cause)
    → any is_success (reports (by_cause w c))
      ≡ (not (is_some (exec_error w)) && (is_clean_exit w.ran && not (is_decisive c)))
unfolding any
cause_told w (some timed_out) = and_false _ (is_clean_exit w.ran)
cause_told w (some cancelled) = and_false _ (is_clean_exit w.ran)
cause_told w (some aborted) = error_told w (exec_error w) ∙ and_true _ (is_clean_exit w.ran)
cause_told w (some shut_down) = error_told w (exec_error w) ∙ and_true _ (is_clean_exit w.ran)
cause_told w none = error_told w (exec_error w) ∙ and_true _ (is_clean_exit w.ran)

module _ (p : Cause → Bool) (ends : List Cause) where
  sent_or_plain :
      (d : Bool) (u : Uploaded)
      → (not (is_some (if d then upload_error u else none))
          && not
              (is_decisive (find p (ends ++ (if d && is_superseded u then aborted ∷ [] else [])))))
        ≡ ((if d then is_uploaded u else true) && not (is_decisive (find p ends)))
  sent_or_plain true uploaded = ap (λ es. not (is_decisive (find p es))) (append_nil ends)
  sent_or_plain true (superseded m) = refl
  sent_or_plain true (lost m) = refl
  sent_or_plain false u = ap (λ es. not (is_decisive (find p es))) (append_nil ends)

  joined :
      (r : Ran) (d : Bool) (u : Uploaded)
      → (not (is_some (if is_clean_exit r && d then upload_error u else ran_error r))
          && (is_clean_exit r
              && not (
                  is_decisive (
                    find p (
                      ends
                      ++ (if (is_clean_exit r && d) && is_superseded u
                          then aborted ∷ []
                          else []))))))
        ≡ (is_clean_exit r
            && ((if d then is_uploaded u else true) && not (is_decisive (find p ends))))
  joined (broke m) d u = refl
  joined (exited c oom) d u = elim (Bool-cases (is_zero c)) [
    | inl e ↦ rw e (sent_or_plain d u)
    | inr e ↦ rw e refl
  ]

silent_before :
    (b : Bool) (a : Action) (rest : List Action)
    → is_success a ≡ false
    → any is_success ((if b then send ∷ [] else []) ++ a ∷ rest) ≡ any is_success rest
unfolding any
silent_before true a rest e = rw (e, any) refl
silent_before false a rest e = rw (e, any) refl

execution_told :
    (w : Work)
    → any is_success (execution w) ≡ (
        is_clean_exit w.ran
        && ((if w.declares then is_uploaded w.upload else true)
            && not (is_decisive (find (is_end w) w.ends))))
unfolding any execution to_report cause
execution_told w =
    silent_before (sends w) (close (is_aborted w)) (reports (to_report w)) refl
    ∙ (cause_told w (cause w) ∙ joined (is_end w) w.ends w.ran w.declares w.upload)

or_false : (b : Bool) → (if b then true else false) ≡ b
or_false true = refl
or_false false = refl

tail_told :
    (xs : List Action) (a : Action)
    → is_success a ≡ false
    → any is_success (xs ++ a ∷ []) ≡ any is_success xs
unfolding any
tail_told xs a e = any-append xs (a ∷ []) ∙ (rw (e, any) (or_false (any is_success xs)))

dir_told :
    (w : Work) (e : Option String)
    → any is_success (by_dir w e) ≡ (not (is_some e) && any is_success (execution w))
unfolding any
dir_told w (some m) = refl
dir_told w none = tail_told (execution w) remove_dir refl

started_told :
    (w : Work) (d : Bool) (e : Option String)
    → any is_success (if d then by_dir w e else execution w)
      ≡ (not (d && is_some e) && any is_success (execution w))
started_told w true e = dir_told w e
started_told w false e = refl

spec_told :
    (w : Work) (e : Option String)
    → any is_success (by_spec w e) ≡ (
        not (is_some e)
        && (not (w.declares && is_some w.dir_error) && any is_success (execution w)))
unfolding any
spec_told w (some m) = refl
spec_told w none = started_told w w.declares w.dir_error

-- An attempt is reported as succeeded exactly when its job could be decoded, its artifact directory made
-- if it declares artifacts, the execution ended with exit code 0, all artifacts were sent, and no timeout
-- or cancel by the user was the first to end it before.
pub run_attempt-has_succeeded : (w : Work) → any is_success (run_attempt w) ≡ has_succeeded w
unfolding run_attempt any
run_attempt-has_succeeded w =
    tail_told (by_spec w w.spec_error) leave refl
    ∙ (spec_told w w.spec_error
        ∙ ap (λ b. not (is_some w.spec_error) && (not (w.declares && is_some w.dir_error) && b))
            (execution_told w))
