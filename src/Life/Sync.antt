-- ===== src/Life/Sync.antt =====
-- The loop invariant of advance: the map `state` agrees with the table, and the list of edges that was
-- read holds every edge of the run's jobs.
use quarry.Base.{
  String, List, [], ◌∷◌, Option, some, Bool, true, false, ◌&&◌, ◌≡◌, ◌⊎◌, inl, inr, refl, sym,
  subst, ap, arith, All, All-map, All-of, All-zip, All-find, Bool-cases, any, any-false, find,
  select, update, map, ◌==◌, String-eq, if◌then◌else◌,
}
use quarry.Store.Types.{Job, JobState, JobState-eq, JobDep, pending, succeeded, queued}
use quarry.Store.Monad.{Store}
use quarry.Scheduler.Advance.{
  States, state_at, set_state, needs_of, next_state, is_blocking, is_waiting, is_pending_in,
}
use quarry.Life.Move.{IsReady}

-- The row under an id is in a state.
abbrev pub InState : List Job → String → JobState → Type 0
InState js id st = (k : Job) × (find (λ (l : Job). l.id == id) js ≡ some k) × (k.state ≡ st)

module _ {A : Type 0} where
  abbrev pub Elem : A → List A → Type 0
  Elem x [] = ⊥
  Elem x (y ∷ ys) = (x ≡ y) ⊎ Elem x ys

  pub All-self : (xs : List A) → All (λ x. Elem x xs) xs
  All-self [] = tt
  All-self (x ∷ xs) = (inl refl, All-map _ _ xs (λ y. inr) (All-self xs))

  pub Elem-select :
      (p : A → Bool) (xs : List A) (x : A) → p x ≡ true → Elem x xs → Elem x (select p xs)
  unfolding select
  Elem-select p [] x t e = elim e [ ]
  Elem-select p (y ∷ ys) x t (inl e) = rw (← e, t) (inl refl)
  Elem-select p (y ∷ ys) x t (inr e) = elim (Bool-cases (p y)) [
    | inl u ↦ rw u (inr (Elem-select p ys x t e))
    | inr u ↦ rw u (Elem-select p ys x t e)
  ]

  pub any-true : (p : A → Bool) (xs : List A) (x : A) → Elem x xs → p x ≡ true → any p xs ≡ true
  unfolding any
  any-true p [] x e t = elim e [ ]
  any-true p (y ∷ ys) x (inl e) t = rw (← e, t)
  any-true p (y ∷ ys) x (inr e) t = elim (Bool-cases (p y)) [
    | inl u ↦ rw u
    | inr u ↦ rw u (any-true p ys x e t)
  ]

pub Elem-map : {A B : Type 0} (f : A → B) (xs : List A) (x : A) → Elem x xs → Elem (f x) (map f xs)
Elem-map f [] x e = elim e [ ]
Elem-map f (y ∷ ys) x (inl e) = inl (ap f e)
Elem-map f (y ∷ ys) x (inr e) = inr (Elem-map f ys x e)

pub All-Elem : {A : Type 0} (Q : A → Type 0) (ys : List A) (x : A) → All Q ys → Elem x ys → Q x
All-Elem Q [] x h e = elim e [ ]
All-Elem Q (y ∷ ys) x h (inl e) = subst Q (sym e) h.0
All-Elem Q (y ∷ ys) x h (inr e) = All-Elem Q ys x h.1 e

pub record Sync (deps : List JobDep) (jobs : List Job) (states : States) (s : Store) : Type 0 where
  pub agrees : (id : String) (st : JobState) → state_at states id ≡ some st → InState s.jobs id st
  pub covers :
      (j : Job)
      → Elem j jobs
      → All (λ (d : JobDep). d.job_id ≡ j.id → Elem d.needs_job_id (needs_of deps j.id)) s.job_deps

-- A job that is to be queued has every need marked as succeeded.
next_queued :
    (states : States) (needs : List String)
    → next_state states needs ≡ some queued
    → All (λ n. state_at states n ≡ some succeeded) needs
unfolding next_state
next_queued states needs h = elim (Bool-cases (any (λ n. is_blocking (state_at states n)) needs)) [
  | inl b ↦ absurd (ground (arith, h, b))
  | inr b ↦ elim (Bool-cases (any (λ n. is_waiting (state_at states n)) needs)) [
    | inl w ↦ absurd (ground (arith, h, b, w))
    | inr w ↦
        All-zip _ _ _ needs (λ n p q. decided (state_at states n) p q)
          (any-false (λ n. is_blocking (state_at states n)) needs b)
          (any-false (λ n. is_waiting (state_at states n)) needs w)
  ]
]
  where
    decided :
        (o : Option JobState) → is_blocking o ≡ false → is_waiting o ≡ false → o ≡ some succeeded
    decided o p q = ground arith

pub next_queued-IsReady :
    (deps : List JobDep) (states : States) (s : Store) (j : Job)
    → ((id : String) (st : JobState) → state_at states id ≡ some st → InState s.jobs id st)
    → All (λ (d : JobDep). d.job_id ≡ j.id → Elem d.needs_job_id (needs_of deps j.id)) s.job_deps
    → next_state states (needs_of deps j.id) ≡ some queued
    → IsReady s j
next_queued-IsReady deps states s j agrees covers h =
    All-map _ _ s.job_deps
      (λ d elem e. agrees d.needs_job_id succeeded (
        All-Elem _ (needs_of deps j.id) d.needs_job_id (next_queued states (needs_of deps j.id) h)
          (elem e)))
      covers

-- An update that keeps ids, seen through find.
pub find-update :
    (p : Job → Bool) (f : Job → Job) (id : String) (js : List Job) (k : Job)
    → All (λ j. p j ≡ true → (f j).id ≡ j.id) js
    → find (λ (l : Job). l.id == id) js ≡ some k
    → find (λ (l : Job). l.id == id) (update p f js) ≡ some (if p k then f k else k)
unfolding find update
find-update p f id [] k same e = cc
find-update p f id (j ∷ js) k same e = elim (Bool-cases (j.id == id)) [
  | inl t ↦
      let eq : j ≡ k = ground (arith, e, t) in
      subst
        (λ l. find (λ (l : Job). l.id == id) (update p f (j ∷ js)) ≡ some (if p l then f l else l))
        eq (ground (arith, same.0, t))
  | inr t ↦
      let rest = find-update p f id js k same.1 (rw (t, find) at e) in
      ground (arith, same.0, t, rest)
]

state_at-set_state :
    (states : States) (id : String) (to : JobState) (k : String)
    → state_at (set_state states id to) k ≡ (if id == k then some to else state_at states k)
unfolding state_at set_state
state_at-set_state [] id to k = refl
state_at-set_state ((i, st) ∷ rest) id to k = ground (arith, state_at-set_state rest id to k)

pub is_pending_in-eq :
    (states : States) (id : String)
    → is_pending_in states id ≡ true
    → state_at states id ≡ some pending
is_pending_in-eq states id h = ground (arith, h)

-- Moving the pending rows under an id keeps the map and the table in step.
pub agrees-move :
    (states : States) (id : String) (next : JobState) (f : Job → Job) (js : List Job)
    → ((j : Job) → ((f j).id ≡ j.id) × ((f j).state ≡ next))
    → state_at states id ≡ some pending
    → ((k : String) (st : JobState) → state_at states k ≡ some st → InState js k st)
    → (k : String) (st : JobState) → state_at (set_state states id next) k ≡ some st
    → InState (update (λ j. j.id == id && j.state == pending) f js) k st
agrees-move states id next f js good pend agrees k st e = elim (Bool-cases (id == k)) [
  | inl same ↦
      let (x, found, xs) = agrees id pending pend in
      let named = (All-find (λ _. Unit {0}) _ js x found (All-of js (λ _. tt))).1 in
      let there =
        find-update (λ j. j.id == id && j.state == pending) f id js x
          (All-of js (λ j _. (good j).0)) found in
      (
        f x,
        ground (arith, same, named, xs, there),
        ground (arith, (good x).1, same, e, state_at-set_state states id next k),
      )
  | inr other ↦
      let (x, found, xs) =
        agrees k st (ground (arith, e, other, state_at-set_state states id next k)) in
      let named = (All-find (λ _. Unit {0}) _ js x found (All-of js (λ _. tt))).1 in
      let there =
        find-update (λ j. j.id == id && j.state == pending) f k js x (All-of js (λ j _. (good j).0))
          found in
      (x, ground (arith, other, named, there), xs)
]
