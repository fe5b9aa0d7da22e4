-- ===== src/Agent/Protocol.antt =====
-- runAttempt, whatever happens to it: what it does, in which order, and what it reports.
use quarry.Base.{
  ℕ-eq, String, List, [], ◌∷◌, ◌++◌, Option, none, some, Bool, true, false, ◌&&◌, ◌≡◌, refl, sym,
  ap, ◌∙◌, subst, arith, Bool-cases, inl, inr, if◌then◌else◌,
}
use quarry.Store.Types.{FailureKind, infra}
use quarry.Scheduler.Complete.{Result, is_reportable}
use quarry.Agent.Attempt.{
  Cause, timed_out, cancelled, aborted, shut_down, Ran, exited, broke, Work, Action, send,
  remove_dir, leave, close, exit_result, is_clean_exit, is_abort, is_some, failure, exec_error,
  ran_error, cause, is_aborted, is_shut, by_cause, by_error, to_report, reports, execution, by_dir,
  by_spec, run_attempt,
}
use quarry.Agent.Discipline.{
  outside, inside, finished, discarded, reported, gone, Place, placed, acceptable, move, follow_on,
  Follows, is_aborted-is_overtaken,
}

-- Something is reported, or the attempt was aborted; what is reported is acceptable.
data Reported (w : Work) : Type 0 where
  told :
      (r : Result) → to_report w ≡ some r → acceptable r ≡ true → is_aborted w ≡ false → Reported w
  silent : to_report w ≡ none → is_aborted w ≡ true → Reported w

acceptable_exit : (r : Ran) → acceptable (exit_result r) ≡ true
unfolding is_reportable
acceptable_exit (exited c oom) = ground arith
acceptable_exit (broke m) = refl

aborted_by :
    (w : Work) (c : Option Cause) (m : Option String)
    → cause w ≡ c
    → exec_error w ≡ m
    → is_aborted w ≡ (is_some m && is_abort c)
unfolding is_aborted
aborted_by w c m e f =
    ap (λ x. is_some (exec_error w) && is_abort x) e ∙ ap (λ x. is_some x && is_abort c) f

-- An executor that returned without an error gave an exit code.
no_error : (r : Ran) → ran_error r ≡ none → acceptable (exit_result r) ≡ true
unfolding is_reportable
no_error r e = acceptable_exit r

open_error :
    (w : Work) (c : Option Cause) (m : Option String)
    → cause w ≡ c
    → exec_error w ≡ m
    → is_abort c ≡ false
    → to_report w ≡ by_error w (exec_error w)
    → Reported w
unfolding is_reportable
open_error w c none e f a k =
    told (exit_result w.ran) (k ∙ ap (by_error w) f) (acceptable_exit w.ran)
      (aborted_by w c none e f)
open_error w c (some m) e f a k =
    let no : is_aborted w ≡ false = aborted_by w c (some m) e f ∙ a in
    elim (Bool-cases (is_shut w)) [
      | inl b ↦
          told (failure infra "runner shutting down") (k ∙ (ap (by_error w) f ∙ rw (no, b) refl))
            refl no
      | inr b ↦ told (failure infra m) (k ∙ (ap (by_error w) f ∙ rw (no, b) refl)) refl no
    ]

settled : (m : Option String) → (is_some m && false) ≡ false
settled none = refl
settled (some m) = refl

to_report-Reported :
    (w : Work) (c : Option Cause) (m : Option String) → cause w ≡ c → exec_error w ≡ m → Reported w
unfolding to_report is_reportable
to_report-Reported w (some timed_out) m e f =
    told (failure FailureKind.timeout "job timed out") (ap (by_cause w) e) refl
      (aborted_by w (some timed_out) m e f ∙ settled m)
to_report-Reported w (some cancelled) m e f =
    told (failure FailureKind.cancelled "job cancelled by user") (ap (by_cause w) e) refl
      (aborted_by w (some cancelled) m e f ∙ settled m)
to_report-Reported w (some aborted) none e f =
    told (exit_result w.ran) (ap (by_cause w) e ∙ ap (by_error w) f) (acceptable_exit w.ran)
      (aborted_by w (some aborted) none e f)
to_report-Reported w (some aborted) (some m) e f =
    let yes : is_aborted w ≡ true = aborted_by w (some aborted) (some m) e f in
    silent (ap (by_cause w) e ∙ (ap (by_error w) f ∙ rw yes refl)) yes
to_report-Reported w (some shut_down) m e f =
    open_error w (some shut_down) m e f refl (ap (by_cause w) e)
to_report-Reported w none m e f = open_error w none m e f refl (ap (by_cause w) e)

-- The tail of an execution, and what follows it.
abbrev closing : Bool → Option Result → List Action
closing b r = close b ∷ reports r

closing-follows :
    (w : Work) (d : Bool)
    → Reported w
    → follow_on (is_aborted w) (closing (is_aborted w) (to_report w)) (some (placed finished d))
      ≡ some (placed (if is_aborted w then discarded else reported) d)
closing-follows w d (told r e a n) = rw (e, n, a) refl
closing-follows w d (silent e y) = rw (e, y) refl

follow-append :
    (o : Bool) (xs ys : List Action) (p : Option Place)
    → follow_on o (xs ++ ys) p ≡ follow_on o ys (follow_on o xs p)
follow-append o [] ys p = refl
follow-append o (x ∷ xs) [] none = refl
follow-append o (x ∷ xs) (y ∷ ys) none = refl
follow-append o (x ∷ xs) ys (some p) = follow-append o xs ys (move o p x)

-- Files are sent only where the directory exists.
sending-follows :
    (o clean declares : Bool) (tail : List Action)
    → follow_on o
        ((if clean && declares then send ∷ [] else []) ++ tail)
        (some (placed finished declares))
      ≡ follow_on o tail (some (placed finished declares))
sending-follows o true true tail = refl
sending-follows o true false tail = refl
sending-follows o false d tail = refl

execution-follows :
    (w : Work)
    → Reported w
    → follow_on (is_aborted w) (execution w) (some (placed inside w.declares))
      ≡ some (placed (if is_aborted w then discarded else reported) w.declares)
unfolding execution
execution-follows w h =
    sending-follows (is_aborted w) (is_clean_exit w.ran) w.declares
      (closing (is_aborted w) (to_report w))
    ∙ closing-follows w w.declares h

-- After the execution the directory goes and the registration ends.
ended :
    (o a : Bool)
    → follow_on o (leave ∷ []) (some (placed (if a then discarded else reported) false))
      ≡ some (placed gone false)
ended o true = refl
ended o false = refl

plain-follows :
    (w : Work)
    → w.declares ≡ false
    → Reported w
    → follow_on (is_aborted w) (execution w ++ leave ∷ []) (some (placed inside false))
      ≡ some (placed gone false)
plain-follows w d h =
    follow-append (is_aborted w) (execution w) (leave ∷ []) (some (placed inside false))
    ∙ (ap (follow_on (is_aborted w) (leave ∷ [])) (
          subst
            (λ b.
              follow_on (is_aborted w) (execution w) (some (placed inside b))
              ≡ some (placed (if is_aborted w then discarded else reported) b))
            d (execution-follows w h))
        ∙ ended (is_aborted w) (is_aborted w))

stored-follows :
    (w : Work)
    → w.declares ≡ true
    → Reported w
    → follow_on
        (is_aborted w)
        ((execution w ++ remove_dir ∷ []) ++ leave ∷ [])
        (some (placed inside true))
      ≡ some (placed gone false)
stored-follows w d h =
    follow-append (is_aborted w) (execution w ++ remove_dir ∷ []) (leave ∷ [])
      (some (placed inside true))
    ∙ (ap (follow_on (is_aborted w) (leave ∷ [])) (
          follow-append (is_aborted w) (execution w) (remove_dir ∷ []) (some (placed inside true))
          ∙ ap (follow_on (is_aborted w) (remove_dir ∷ [])) (
              subst
                (λ b.
                  follow_on (is_aborted w) (execution w) (some (placed inside b))
                  ≡ some (placed (if is_aborted w then discarded else reported) b))
                d (execution-follows w h)))
        ∙ cleaned_in (is_aborted w))
  where
    cleaned_in :
        (a : Bool)
        → follow_on (is_aborted w) (leave ∷ []) (
            follow_on
              (is_aborted w)
              (remove_dir ∷ [])
              (some (placed (if a then discarded else reported) true)))
          ≡ some (placed gone false)
    cleaned_in true = refl
    cleaned_in false = refl

dir-follows :
    (w : Work) (e : Option String)
    → w.declares ≡ true
    → Reported w
    → follow_on (is_aborted w) (by_dir w e ++ leave ∷ []) (some (placed inside false))
      ≡ some (placed gone false)
unfolding is_reportable
dir-follows w (some m) d h = refl
dir-follows w none d h = stored-follows w d h

spec-follows :
    (w : Work) (e : Option String)
    → Reported w
    → follow_on (is_aborted w) (by_spec w e ++ leave ∷ []) (some (placed inside false))
      ≡ some (placed gone false)
unfolding is_reportable
spec-follows w (some m) h = refl
spec-follows w none h = elim (Bool-cases w.declares) [
  | inl d ↦
      subst
        (λ b.
          follow_on (is_aborted w) ((if b then by_dir w w.dir_error else execution w) ++ leave ∷ [])
            (some (placed inside false))
          ≡ some (placed gone false))
        (sym d) (dir-follows w w.dir_error d h)
  | inr d ↦
      subst
        (λ b.
          follow_on (is_aborted w) ((if b then by_dir w w.dir_error else execution w) ++ leave ∷ [])
            (some (placed inside false))
          ≡ some (placed gone false))
        (sym d) (plain-follows w d h)
]

-- Whatever happens to an attempt, it is registered first and its registration ends last; files are sent
-- only between the execution and the flush and while their directory exists, which is removed; the log
-- is flushed before the report. There is exactly one report, which the server's check of results takes,
-- unless the attempt was overtaken: the executor or the upload has failed, and what ended the attempt first
-- was that the server gave it to another. Then, and only then, the log is discarded and there is no report.
pub run_attempt-Follows : (w : Work) → Follows w
unfolding run_attempt
run_attempt-Follows w =
    subst
      (λ o. follow_on o (run_attempt w) (some (placed outside false)) ≡ some (placed gone false))
      (is_aborted-is_overtaken w)
      (spec-follows w w.spec_error (to_report-Reported w (cause w) (exec_error w) refl refl))
