-- ===== src/Life/Rounds.antt =====
-- advance of internal/scheduler/scheduler.go: its rounds end, within the fuel that the model gives them.
use quarry.Base.{
  ap, ℕ, suc, ◌<◌, ◌≤◌, String, List, [], ◌∷◌, Option, none, some, Bool, true, ◌≡◌, refl, subst,
  inl, inr, arith, Bool-cases, any, length, ◌==◌, String-eq,
}
use quarry.Store.Types.{
  Job, JobDep, JobState, JobState-eq, pending, queued, running, succeeded, failed, cancelled,
  skipped,
}
use quarry.Store.Monad.{◌>>=◌, return}
use quarry.Store.Rules.{Ensures, Ensures-bind, Ensures-if}
use quarry.Store.Success.{Ensures-any}
use quarry.Scheduler.Advance.{
  States, state_at, set_state, states_of, needs_of, next_state, is_blocking, is_waiting,
  is_pending_in, move, visit, pass,
}

-- How many jobs are marked as pending.
abbrev pub pendings : States → ℕ
pendings [] = 0
pendings ((k, pending) ∷ rest) = suc (pendings rest)
pendings ((k, _) ∷ rest) = pendings rest

pendings-entry :
    (k : String) (st : JobState) (rest : States) → pendings ((k, st) ∷ rest) ≤ suc (pendings rest)
pendings-entry k pending rest = omega arith
pendings-entry k queued rest = omega arith
pendings-entry k running rest = omega arith
pendings-entry k succeeded rest = omega arith
pendings-entry k failed rest = omega arith
pendings-entry k cancelled rest = omega arith
pendings-entry k skipped rest = omega arith

pub pendings-states_of : (js : List Job) → pendings (states_of js) ≤ length js
pendings-states_of [] = omega arith
pendings-states_of (j ∷ js) =
    omega (arith, pendings-entry j.id j.state (states_of js), pendings-states_of js)

abbrev pub IsNext : JobState → Type 0
IsNext queued = Unit {0}
IsNext skipped = Unit {0}
IsNext _ = ⊥

pendings-head :
    (k : String) (st : JobState) (rest rest' : States)
    → pendings rest' < pendings rest
    → pendings ((k, st) ∷ rest') < pendings ((k, st) ∷ rest)
pendings-head k pending rest rest' h = omega (arith, h)
pendings-head k queued rest rest' h = h
pendings-head k running rest rest' h = h
pendings-head k succeeded rest rest' h = h
pendings-head k failed rest rest' h = h
pendings-head k cancelled rest rest' h = h
pendings-head k skipped rest rest' h = h

pendings-next :
    (k id : String) (next : JobState) (rest : States)
    → IsNext next
    → pendings ((id, next) ∷ rest) ≡ pendings rest
pendings-next k id queued rest n = refl
pendings-next k id skipped rest n = refl
pendings-next k id pending rest n = elim n [ ]
pendings-next k id running rest n = elim n [ ]
pendings-next k id succeeded rest n = elim n [ ]
pendings-next k id failed rest n = elim n [ ]
pendings-next k id cancelled rest n = elim n [ ]

-- A job that is moved is pending no more.
pendings-set_state :
    (states : States) (id : String) (next : JobState)
    → is_pending_in states id ≡ true
    → IsNext next
    → pendings (set_state states id next) < pendings states
unfolding state_at set_state
pendings-set_state [] id next p n = cc p
pendings-set_state ((k, st) ∷ rest) id next p n = elim (Bool-cases (k == id)) [
  | inl e ↦
      let here : st ≡ pending = ground (arith, e, p) in
      rw (e, here, pendings-next k k next rest n) (omega arith)
  | inr e ↦
      rw e (pendings-head k st rest _ (pendings-set_state rest id next (ground (arith, e, p)) n))
]

pub next_state-IsNext :
    (states : States) (needs : List String) (next : JobState)
    → next_state states needs ≡ some next
    → IsNext next
unfolding next_state
next_state-IsNext states needs next e =
    elim (Bool-cases (any (λ n. is_blocking (state_at states n)) needs)) [
      | inl b ↦ let same : skipped ≡ next = ground (arith, e, b) in subst IsNext same tt
      | inr b ↦ elim (Bool-cases (any (λ n. is_waiting (state_at states n)) needs)) [
        | inl w ↦ absurd (ground (arith, e, b, w))
        | inr w ↦ let same : queued ≡ next = ground (arith, e, b, w) in subst IsNext same tt
      ]
    ]

-- Each step leaves at most n jobs pending, and fewer if it moved one.
pub record Shrinks (n : ℕ) (acc : States × Bool) : Type 0 where
  pub fewer : pendings acc.0 ≤ n
  pub moved : acc.1 ≡ true → pendings acc.0 < n

module _ (run_id : String) (deps : List JobDep) where
  move-set_state :
      (states : States) (id : String) (next : JobState)
      → Ensures (λ _. Unit {0}) (move run_id states id next) (λ st _. st ≡ set_state states id next)
  unfolding move return
  move-set_state states id next =
      Ensures-bind (λ _ _. Unit {0}) _ _ (Ensures-any _ _)
        λ done.
          Ensures-bind (λ _ _. Unit {0}) _ _ (Ensures-any _ _)
            λ _.
              Ensures-bind (λ _ _. Unit {0}) _ _ (Ensures-any _ _)
                λ _.
                  Ensures-bind (λ _ _. Unit {0}) _ _ (Ensures-any _ _)
                    λ _. record { at = λ s w. refl }

  visit-Shrinks :
      (n : ℕ) (acc : States × Bool) (j : Job)
      → Shrinks n acc
      → Ensures (λ _. Unit {0}) (visit run_id deps acc j) (λ acc' _. Shrinks n acc')
  unfolding visit return
  visit-Shrinks n (states, changed) j h =
      Ensures-if _ _ _ (λ waits. go waits (next_state states (needs_of deps j.id)) refl)
        (λ _. record { at = λ s w. h })
    where
      go :
          is_pending_in states j.id ≡ true
          → (o : Option JobState) → next_state states (needs_of deps j.id) ≡ o
          → Ensures {A = States × Bool}
              (λ _. Unit {0})
              (elim o [
                | none ↦ return (states, changed)
                | some next ↦ move run_id states j.id next >>= λ states'. return (states', true)
              ])
              (λ acc' _. Shrinks n acc')
      go waits none e = record { at = λ s w. h }
      go waits (some next) e =
          let less =
            pendings-set_state states j.id next waits (next_state-IsNext states _ next e) in
          Ensures-bind (λ st _. st ≡ set_state states j.id next) _ _
            (move-set_state states j.id next)
            λ st. record {
              at = λ s same. record {
                fewer = omega (arith, less, h.fewer, ap pendings same);
                moved = λ t. omega (arith, less, h.fewer, ap pendings same);
              };
            }

  pub pass-Shrinks :
      (n : ℕ) (js : List Job) (acc : States × Bool)
      → Shrinks n acc
      → Ensures (λ _. Unit {0}) (pass run_id deps js acc) (λ acc' _. Shrinks n acc')
  unfolding pass return
  pass-Shrinks n [] acc h = record { at = λ s w. h }
  pass-Shrinks n (j ∷ js) acc h =
      Ensures-bind (λ acc' _. Shrinks n acc') _ _ (visit-Shrinks n acc j h)
        λ acc'. record { at = λ s h'. (pass-Shrinks n js acc' h').at s tt }
