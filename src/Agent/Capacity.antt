-- ===== src/Agent/Capacity.antt =====
-- The slots of a runner, over any order of its goroutines' steps.
use quarry.Base.{
  ℕ, suc, ◌+◌, ◌≤◌, List, [], ◌∷◌, map, Option, none, some, Bool, true, false, ◌≡◌, refl, sym, ap,
  ◌∙◌, subst, arith, Bool-cases, inl, inr, find, update, length, ltb, if◌then◌else◌,
}
use quarry.Scheduler.Heartbeat.{JobRef, Directive}
use quarry.Agent.Attempt.{Cause, shut_down}
use quarry.Agent.Slots.{
  Running, Poller, selecting, claiming, pausing, returned, Agent, is_id, end_with, remove, Step,
  acquire, claim_failed, claim_empty, pause_over, shutdown, stop, claim_job, register_attempt,
  stale, leave_attempt, release, directed, cause_of, cancel_id, cancel_entry, cancel_key, entry,
  apply, enter_job, leave_job, release_job, after_claim, take_slot, take_job, resume, stop_at, step,
  new, run_on,
}

-- The poll loop's own token.
abbrev pub held : Poller → ℕ
held claiming = 1
held p = 0

-- Every token belongs to the poll loop or to one attempt, and there are never more than the capacity.
abbrev pub IsBalanced : Agent → Type 0
IsBalanced a = (a.tokens ≡ held a.poller + length a.jobs) × (a.tokens ≤ a.capacity)

-- The result of a possible step.
abbrev pub Then : (Agent → Type 0) → Option Agent → Type 0
Then P none = Unit {0}
Then P (some a) = P a

length-update :
    (p : Running → Bool) (f : Running → Running) (rs : List Running)
    → length (update p f rs) ≡ length rs
unfolding update
length-update p f [] = refl
length-update p f (r ∷ rs) = ap {B = ℕ} suc (length-update p f rs)

length-map : (f : Running → Running) (rs : List Running) → length (map f rs) ≡ length rs
length-map f [] = refl
length-map f (r ∷ rs) = ap {B = ℕ} suc (length-map f rs)

length-remove :
    (n : ℕ) (rs : List Running) (r : Running)
    → find (is_id n) rs ≡ some r
    → suc (length (remove n rs)) ≡ length rs
unfolding find
length-remove n [] r e = absurd (ground (arith, e))
length-remove n (x ∷ rs) r e = elim (Bool-cases (is_id n x)) [
  | inl t ↦ rw t refl
  | inr t ↦ rw t (ap {B = ℕ} suc (length-remove n rs r (rw (t, find) at e)))
]

cancel-IsBalanced : (a : Agent) (c : Cause) (n : ℕ) → IsBalanced a → IsBalanced (cancel_id a c n)
cancel-IsBalanced a c n (t, k) =
    (t ∙ ap (λ m. held a.poller + m) (sym (length-update (is_id n) (end_with c) a.jobs)), k)

entry-IsBalanced :
    (a : Agent) (c : Cause) (e : Option (JobRef × ℕ))
    → IsBalanced a
    → IsBalanced (cancel_entry a c e)
entry-IsBalanced a c none h = h
entry-IsBalanced a c (some (k, n)) h = cancel-IsBalanced a c n h

key-IsBalanced :
    (a : Agent) (k : JobRef) (c : Option Cause) → IsBalanced a → IsBalanced (cancel_key a k c)
key-IsBalanced a k none h = h
key-IsBalanced a k (some c) h = entry-IsBalanced a c (entry a k) h

take-IsBalanced :
    (a : Agent) (p : Poller) → a.poller ≡ p → IsBalanced a → Then IsBalanced (take_slot a p)
take-IsBalanced a selecting e (t, k) = elim (Bool-cases (ltb a.tokens a.capacity)) [
  | inl b ↦ rw b (omega (arith, t, ap held e), ground (arith, b))
  | inr b ↦ rw b tt
]
take-IsBalanced a claiming e h = tt
take-IsBalanced a pausing e h = tt
take-IsBalanced a returned e h = tt

claimed-IsBalanced :
    (a : Agent) (p q : Poller)
    → a.poller ≡ p
    → held q ≡ 0
    → IsBalanced a
    → Then IsBalanced (after_claim a p q)
claimed-IsBalanced a selecting q e z h = tt
claimed-IsBalanced a claiming q e z (t, k) = (omega (arith, t, ap held e, z), omega (arith, k))
claimed-IsBalanced a pausing q e z h = tt
claimed-IsBalanced a returned q e z h = tt

job-IsBalanced :
    (a : Agent) (p : Poller) (k : JobRef)
    → a.poller ≡ p
    → IsBalanced a
    → Then IsBalanced (take_job a p k)
job-IsBalanced a selecting k e h = tt
job-IsBalanced a claiming k e (t, b) = (omega (arith, t, ap held e), b)
job-IsBalanced a pausing k e h = tt
job-IsBalanced a returned k e h = tt

resume-IsBalanced :
    (a : Agent) (p : Poller) → a.poller ≡ p → IsBalanced a → Then IsBalanced (resume a p)
resume-IsBalanced a selecting e h = tt
resume-IsBalanced a claiming e h = tt
resume-IsBalanced a pausing e (t, k) = (omega (arith, t, ap held e), k)
resume-IsBalanced a returned e h = tt

stop-IsBalanced :
    (a : Agent) (p : Poller) → a.poller ≡ p → IsBalanced a → Then IsBalanced (stop_at a p)
stop-IsBalanced a selecting e (t, k) = elim (Bool-cases a.shut) [
  | inl b ↦
      subst (λ x. Then IsBalanced (if x then some (record a { poller = returned }) else none))
        (sym b) (omega (arith, t, ap held e), k)
  | inr b ↦
      subst (λ x. Then IsBalanced (if x then some (record a { poller = returned }) else none))
        (sym b) tt
]
stop-IsBalanced a claiming e h = tt
stop-IsBalanced a pausing e (t, k) = elim (Bool-cases a.shut) [
  | inl b ↦
      subst (λ x. Then IsBalanced (if x then some (record a { poller = returned }) else none))
        (sym b) (omega (arith, t, ap held e), k)
  | inr b ↦
      subst (λ x. Then IsBalanced (if x then some (record a { poller = returned }) else none))
        (sym b) tt
]
stop-IsBalanced a returned e h = tt

found-IsBalanced :
    (a : Agent) (n : ℕ) (r : Option Running)
    → find (is_id n) a.jobs ≡ r
    → IsBalanced a
    → Then IsBalanced (release_job a n r)
found-IsBalanced a n none e h = tt
found-IsBalanced a n (some r) e (t, k) =
    (omega (arith, t, length-remove n a.jobs r e), omega (arith, k))

enter-IsBalanced : (a : Agent) (r : Option Running) → IsBalanced a → Then IsBalanced (enter_job a r)
enter-IsBalanced a none h = tt
enter-IsBalanced a (some r) h = h

leave-IsBalanced : (a : Agent) (r : Option Running) → IsBalanced a → Then IsBalanced (leave_job a r)
leave-IsBalanced a none h = tt
leave-IsBalanced a (some r) h = h

no_token : (b : Bool) → held (if b then returned else pausing) ≡ 0
no_token true = refl
no_token false = refl

step-IsBalanced : (a : Agent) (e : Step) → IsBalanced a → Then IsBalanced (step a e)
unfolding step
step-IsBalanced a acquire h = take-IsBalanced a a.poller refl h
step-IsBalanced a claim_failed h = claimed-IsBalanced a a.poller _ refl (no_token a.shut) h
step-IsBalanced a claim_empty h = claimed-IsBalanced a a.poller _ refl refl h
step-IsBalanced a pause_over h = resume-IsBalanced a a.poller refl h
step-IsBalanced a shutdown (t, k) =
    (t ∙ ap (λ m. held a.poller + m) (sym (length-map (end_with shut_down) a.jobs)), k)
step-IsBalanced a stop h = stop-IsBalanced a a.poller refl h
step-IsBalanced a (claim_job k) h = job-IsBalanced a a.poller k refl h
step-IsBalanced a (register_attempt n) h = enter-IsBalanced a (find (is_id n) a.jobs) h
step-IsBalanced a (stale n) h = cancel-IsBalanced a _ n h
step-IsBalanced a (leave_attempt n) h = leave-IsBalanced a (find (is_id n) a.jobs) h
step-IsBalanced a (release n) h = found-IsBalanced a n (find (is_id n) a.jobs) refl h
step-IsBalanced a (directed d) h = apply-keeps a d h
  where
    apply-keeps : (a : Agent) (d : Directive) → IsBalanced a → IsBalanced (apply a d)
    apply-keeps a d h = key-IsBalanced a _ (cause_of d.directive) h

runs_on : (es : List Step) (a : Option Agent) → Then IsBalanced a → Then IsBalanced (run_on es a)
runs_on [] a h = h
runs_on (e ∷ es) none h = tt
runs_on (e ∷ es) (some a) h = runs_on es (step a e) (step-IsBalanced a e h)

-- After any possible steps of the poll loop, the attempts and the heartbeat, in any order, every token in
-- the semaphore belongs to the poll loop or to one attempt that has not ended, and there are at most as
-- many as the capacity; so at most that many attempts run at once, and none is lost.
pub run_on-IsBalanced :
    (capacity : ℕ) (es : List Step) → Then IsBalanced (run_on es (some (new capacity)))
run_on-IsBalanced capacity es = runs_on es (some (new capacity)) (refl, omega arith)
