-- ===== src/Life/Order.antt =====
-- The edges of the DAG are respected: no job runs before its needs have succeeded.
use quarry.Base.{
  String, List, [], ◌∷◌, ◌++◌, some, ◌≡◌, ◌≢◌, inl, inr, sym, subst, ◌∙◌, arith, All, All-map,
  All-append, All-zip, All-find, All-update, Bool, Bool-cases, find, update, String-eq,
}
use quarry.Store.Types.{Job, JobState, JobDep, queued, running, succeeded, failed}
use quarry.Store.Monad.{Store}
use quarry.Life.Move.{
  IsFinal, Move, queue, skip, settle, finish, requeue, end, claim, extend, cancel, ask, IsDone,
  Move-id, Move-source,
}
use quarry.Life.Stable.{IsStable, IsStable-Both, Guarded}
use quarry.Life.Sync.{Elem, All-Elem, find-update}
use quarry.Life.Unique.{IsUnique, IsUnique-stable, ids, ids-update}
use quarry.Life.Submitting.{IsExtendable}
use quarry.Life.History.{Request, run, run-Keeps}
use quarry.Life.Laws.{IsUnique-extendable, IsExtendable-Both, ids-append, All-ids}

-- A job that was handed to the queue or further.
abbrev pub IsStarted : JobState → Type 0
IsStarted queued = Unit {0}
IsStarted running = Unit {0}
IsStarted succeeded = Unit {0}
IsStarted failed = Unit {0}
IsStarted _ = ⊥

-- Where the job of an edge was started, the need of the edge has succeeded.
abbrev pub Respects : JobDep → Store → Type 0
Respects d s = All (λ j. j.id ≡ d.job_id → IsStarted j.state → IsDone s d.needs_job_id) s.jobs

abbrev pub IsOrdered : List JobDep → Store → Type 0
IsOrdered ds s = All (λ d. Respects d s) ds

-- The edges are in the table, and so are their jobs.
abbrev pub IsLinked : List JobDep → Store → Type 0
IsLinked ds s = All (λ d. Elem d s.job_deps × Elem d.job_id (ids s.jobs)) ds

-- A job that has succeeded is not touched by any move.
IsDone-update :
    (p : Job → Bool) (f : Job → Job) (s : Store) (id : String)
    → Guarded Move p f s
    → IsDone s id
    → IsDone (record s { jobs = update p f s.jobs }) id
IsDone-update p f s id g (k, found, e) = elim (Bool-cases (p k)) [
  | inl t ↦ absurd (Move-source ((All-find _ _ s.jobs k found g).0 t) (subst IsFinal (sym e) tt))
  | inr t ↦
      let there =
        find-update p f id s.jobs k (All-map _ _ s.jobs (λ j m u. Move-id (m u)) g) found in
      (k, ground (arith, there, t), e)
]

IsStarted-back : {st st' : JobState} → st ≡ st' → IsStarted st' → IsStarted st
IsStarted-back e h = subst IsStarted (sym e) h

-- Only advance starts a job, and it looks at the needs; every other move starts from a started one.
Move-IsDone :
    (d : JobDep) (s : Store) {j k : Job}
    → Elem d s.job_deps
    → Move s j k
    → (j.id ≡ d.job_id → IsStarted j.state → IsDone s d.needs_job_id)
    → j.id ≡ d.job_id
    → IsStarted k.state
    → IsDone s d.needs_job_id
Move-IsDone d s here (end (settle (queue time h r))) old e st =
    All-Elem _ s.job_deps d r here (sym e)
Move-IsDone d s here (end (settle (skip time h))) old e st = elim st [ ]
Move-IsDone d s here (end (finish x kind code msg time v h)) old e st = old e (IsStarted-back h tt)
Move-IsDone d s here (end (requeue msg time h a c)) old e st = old e (IsStarted-back h tt)
Move-IsDone d s here (claim runner lease time h) old e st = old e (IsStarted-back h tt)
Move-IsDone d s here (extend lease h) old e st = old e st
Move-IsDone d s here (cancel msg time h) old e st = elim st [ ]
Move-IsDone d s here (ask why time h c) old e st = old e st

Respects-update :
    (d : JobDep) (p : Job → Bool) (f : Job → Job) (s : Store)
    → Elem d s.job_deps
    → Guarded Move p f s
    → Respects d s
    → Respects d (record s { jobs = update p f s.jobs })
Respects-update d p f s here g h =
    All-map _ _ (update p f s.jobs) (λ j old e st. IsDone-update p f s d.needs_job_id g (old e st))
      (All-update _ p f s.jobs
        (All-map _ _ s.jobs
          (λ j m old t e st. Move-IsDone d s here (m t) old (sym (Move-id (m t)) ∙ e) st) g)
        h)

Elem-append : {A : Type 0} (xs ys : List A) (x : A) → Elem x xs → Elem x (xs ++ ys)
Elem-append [] ys x e = elim e [ ]
Elem-append (y ∷ xs) ys x (inl e) = inl e
Elem-append (y ∷ xs) ys x (inr e) = inr (Elem-append xs ys x e)

find-append :
    (p : Job → Bool) (xs ys : List Job) (k : Job) → find p xs ≡ some k → find p (xs ++ ys) ≡ some k
unfolding find
find-append p [] ys k e = cc
find-append p (x ∷ xs) ys k e = elim (Bool-cases (p x)) [
  | inl t ↦ rw t (rw (t, find) at e)
  | inr t ↦ rw t (find-append p xs ys k (rw (t, find) at e))
]

module _ (ds : List JobDep) where
  abbrev Ordered : Store → Type 0
  Ordered s = IsLinked ds s × IsOrdered ds s

  Ordered-stable : IsStable Move Ordered
  Ordered-stable = record {
    quiet = λ s t e g h. rw (e, g) h;
    closed = λ p f s g (l, h). (
      All-map _ _ ds
          (λ d (a, b). (
            a,
            subst (Elem d.job_id)
                (sym (ids-update p f s.jobs (All-map _ _ s.jobs (λ j m t. Move-id (m t)) g))) b,
          ))
          l,
      All-zip _ _ _ ds (λ d (a, b) k. Respects-update d p f s a g k) l h,
    );
  }

  Ordered-extendable : IsExtendable Ordered
  Ordered-extendable = record {
    add = λ s j n fresh (l, h). (
      All-map _ _ ds
          (λ d (a, b). (
            a,
            subst (Elem d.job_id) (sym (ids-append s.jobs (j ∷ [])))
                (Elem-append _ (j.id ∷ []) _ b),
          ))
          l,
      All-zip _ _ _ ds
          (λ d (a, b) k.
            All-append _ s.jobs (j ∷ [])
              (All-map _ _ s.jobs
                (λ i old e st.
                  let (x, found, y) = old e st in (x, find-append _ s.jobs (j ∷ []) x found, y))
                k)
              (
                (λ e st. absurd (
                    All-Elem (λ i. i ≢ j.id) (ids s.jobs) d.job_id (All-ids _ s.jobs fresh) b
                      (sym e))),
                tt,
              ))
          l h,
    );
    link =
        λ s e (l, h). (All-map _ _ ds (λ d (a, b). (Elem-append s.job_deps (e ∷ []) d a, b)) l, h);
  }

-- Whatever the requests, a job that was queued, is running, or has ended in success or failure has
-- every need of the edges given succeeded. At the start job ids are distinct, the edges and their jobs
-- are in the table, and the edges are respected.
pub run-IsOrdered :
    (ds : List JobDep) (qs : List Request) (s : Store)
    → IsUnique s
    → IsLinked ds s
    → IsOrdered ds s
    → IsOrdered ds (run qs s)
run-IsOrdered ds qs s u l h =
    (run-Keeps (IsStable-Both IsUnique-stable (Ordered-stable ds))
      (IsExtendable-Both IsUnique-extendable (Ordered-extendable ds)) (λ t p. p.0) qs s
      (u, (l, h))).1.1
