-- ===== src/Life/Ending.antt =====
-- advance of internal/scheduler/scheduler.go: its loop ends with a result.
use quarry.Base.{
  ℕ, zero, suc, ◌<◌, String, List, [], ◌∷◌, Option, none, some, Bool, true, false, ◌≡◌, refl, ◌∙◌,
  arith, All, All-of, All-find, length, ◌==◌, ℕ-eq, String-discrete, String-eq, select,
  if◌then◌else◌,
}
use quarry.Store.Types.{
  Job, JobDep, JobState, JobState-eq, pending, queued, running, succeeded, failed, cancelled,
  skipped,
}
use quarry.Store.Monad.{Store, ◌>>=◌, return, guard, now}
use quarry.Store.Rules.{Ensures, Ensures-bind, Ensures-weaken}
use quarry.Store.Success.{
  Succeeds, Succeeds-bind, Succeeds-return, Succeeds-guard, Ensures-any, Ensures-both,
}
use quarry.Store.Events.{append_event, insert_event}
use quarry.Store.Jobs.{is_pending, transition_pending_job, transition_to, update_jobs}
use quarry.Scheduler.Types.{enter}
use quarry.Scheduler.Advance.{
  States, needs_of, next_state, is_pending_in, move, visit, pass, settle, event_type,
}
use quarry.Scheduler.Directives.{matches_one, OnlyAt}
use quarry.Life.Stable.{IsStable, IsStable-mono, now-Keeps}
use quarry.Life.Sync.{Elem, All-self, InState, is_pending_in-eq}
use quarry.Life.Settling.{Loop, Loop-stable}
use quarry.Life.Advancing.{visit-Ensures, pass-Ensures}
use quarry.Life.Unique.{IsUnique}
use quarry.Life.Clearing.{Calm, Settles-Calm, IsUnique-Calm}
use quarry.Life.Move.{Settles}
use quarry.Life.Rounds.{pendings, IsNext, next_state-IsNext, Shrinks, pass-Shrinks}

is_pending-id : (id : String) → OnlyAt id (is_pending id)
is_pending-id id k e = ground (arith, e)

-- Where the map agrees with the table, the row of a pending job is pending.
pending_row :
    (id : String) (s : Store)
    → IsUnique s
    → InState s.jobs id pending
    → (length (select (is_pending id) s.jobs) == 1) ≡ true
pending_row id s u (k, found, e) =
    matches_one id (is_pending id) k s.jobs (is_pending-id id) u found
    ∙ ground (arith, e, (All-find (λ _. Unit {0}) _ s.jobs k found (All-of s.jobs (λ _. tt))).1)

pub IsUnique-Settles : IsStable Settles IsUnique
IsUnique-Settles = IsStable-mono Calm Settles Settles-Calm IsUnique-Calm

event_type-named : (next : JobState) → (event_type next == "") ≡ false
unfolding String-discrete
event_type-named pending = refl
event_type-named queued = refl
event_type-named running = refl
event_type-named succeeded = refl
event_type-named failed = refl
event_type-named cancelled = refl
event_type-named skipped = refl

module _ (run_id : String) (named : (run_id == "") ≡ false) (deps : List JobDep)
    (jobs : List Job) where
  abbrev At : States → Store → Type 0
  At states = Loop IsUnique deps jobs states

  module _ (states : States) (j : Job) (waits : is_pending_in states j.id ≡ true) where
    row : (s : Store) → At states s → (length (select (is_pending j.id) s.jobs) == 1) ≡ true
    row s (u, y) = pending_row j.id s u (y.agrees j.id pending (is_pending_in-eq states j.id waits))

    transition_to-changes :
        (next : JobState) (time : ℕ)
        → IsNext next
        → Ensures (At states) (transition_to j.id next time) (λ done _. done ≡ true)
    unfolding update_jobs
    transition_to-changes queued time n = record { at = row }
    transition_to-changes skipped time n = record { at = row }
    transition_to-changes pending time n = elim n [ ]
    transition_to-changes running time n = elim n [ ]
    transition_to-changes succeeded time n = elim n [ ]
    transition_to-changes failed time n = elim n [ ]
    transition_to-changes cancelled time n = elim n [ ]

    transition_to-Succeeds :
        (next : JobState) (time : ℕ)
        → IsNext next
        → Succeeds (At states) (transition_to j.id next time)
    unfolding update_jobs
    transition_to-Succeeds queued time n = record { at = λ s h. tt }
    transition_to-Succeeds skipped time n = record { at = λ s h. tt }
    transition_to-Succeeds pending time n = elim n [ ]
    transition_to-Succeeds running time n = elim n [ ]
    transition_to-Succeeds succeeded time n = elim n [ ]
    transition_to-Succeeds failed time n = elim n [ ]
    transition_to-Succeeds cancelled time n = elim n [ ]

    now-At : Ensures (At states) now (λ _. At states)
    now-At = now-Keeps (Loop-stable IsUnique-Settles deps jobs states)

    now-Succeeds : Succeeds (At states) now
    unfolding now
    now-Succeeds = record { at = λ s h. tt }

    enter-Succeeds : (next : JobState) → Succeeds (λ _. Unit {0}) (enter next)
    unfolding enter
    enter-Succeeds next = record { at = λ s h. tt }

    event-Succeeds :
        (next : JobState) → Succeeds (λ _. Unit {0}) (append_event run_id j.id (event_type next) [])
    unfolding append_event insert_event now return guard ◌>>=◌
    event-Succeeds next = record { at = λ s h. rw (named, event_type-named next) tt }

    move-Succeeds :
        (next : JobState) → IsNext next → Succeeds (At states) (move run_id states j.id next)
    unfolding move transition_pending_job enter
    move-Succeeds next n =
        Succeeds-bind (λ done _. done ≡ true) _ _
          (Succeeds-bind (λ _. At states) _ _ now-Succeeds now-At
            λ time. transition_to-Succeeds next time n)
          (Ensures-bind (λ _. At states) _ _ now-At λ time. transition_to-changes next time n)
          λ done. record {
            at = λ s t.
                (Succeeds-bind {P = λ _. Unit {0}} (λ _ _. Unit {0}) _ _ (Succeeds-guard done _ t)
                    (Ensures-any _ _)
                    λ _.
                      Succeeds-bind (λ _ _. Unit {0}) _ _ (enter-Succeeds next) (Ensures-any _ _)
                        λ _.
                          Succeeds-bind (λ _ _. Unit {0}) _ _ (event-Succeeds next)
                            (Ensures-any _ _) λ _. Succeeds-return _).at
                  s tt;
          }

  visit-Succeeds : (acc : States × Bool) (j : Job) → Succeeds (At acc.0) (visit run_id deps acc j)
  unfolding visit
  visit-Succeeds (states, changed) j =
      go (is_pending_in states j.id) refl (next_state states (needs_of deps j.id)) refl
    where
      go :
          (b : Bool)
          → is_pending_in states j.id ≡ b
          → (o : Option JobState) → next_state states (needs_of deps j.id) ≡ o
          → Succeeds {A = States × Bool} (At states) (
              if b
              then elim o [
                | none ↦ return (states, changed)
                | some next ↦ move run_id states j.id next >>= λ states'. return (states', true)
              ]
              else return (states, changed))
      go false e o n = Succeeds-return _
      go true e none n = Succeeds-return _
      go true e (some next) n =
          Succeeds-bind (λ _ _. Unit {0}) _ _
            (move-Succeeds states j e next (next_state-IsNext states _ next n)) (Ensures-any _ _)
            λ _. Succeeds-return _

  pass-Succeeds :
      (js : List Job) (acc : States × Bool)
      → All (λ j. Elem j jobs) js
      → Succeeds (At acc.0) (pass run_id deps js acc)
  unfolding pass
  pass-Succeeds [] acc h = Succeeds-return acc
  pass-Succeeds (j ∷ js) acc h =
      Succeeds-bind (λ acc'. At acc'.0) _ _ (visit-Succeeds acc j)
        (visit-Ensures IsUnique-Settles deps jobs acc.0 j run_id acc.1 h.0)
        λ acc'. pass-Succeeds js acc' h.1

  pub settle-Succeeds :
      (fuel : ℕ) (states : States)
      → pendings states < fuel
      → Succeeds (At states) (settle fuel run_id deps jobs states)
  unfolding settle
  settle-Succeeds zero states less = absurd (omega (arith, less))
  settle-Succeeds (suc fuel) states less =
      Succeeds-bind (λ acc s. At acc.0 s × Shrinks (pendings states) acc) _ _
        (pass-Succeeds jobs (states, false) (All-self jobs))
        (Ensures-both _
          (pass-Ensures IsUnique-Settles deps jobs run_id jobs (states, false) (All-self jobs))
          (Ensures-weaken _ (λ s h. tt) (λ acc s h. h)
            (pass-Shrinks run_id deps (pendings states) jobs (states, false)
              (record { fewer = omega arith; moved = λ t. ground arith }))))
        λ (states', changed). go states' changed (settle-Succeeds fuel states')
    where
      go :
          (states' : States) (changed : Bool)
          → (pendings states' < fuel → Succeeds (At states') (settle fuel run_id deps jobs states'))
          → Succeeds
              (λ s. At states' s × Shrinks (pendings states) (states', changed))
              (elim changed [
                | true ↦ settle fuel run_id deps jobs states'
                | false ↦ return states'
              ])
      go states' true k = record { at = λ s (a, h). (k (omega (arith, h.moved refl, less))).at s a }
      go states' false k = Succeeds-return states'
