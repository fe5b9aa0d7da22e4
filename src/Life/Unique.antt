-- ===== src/Life/Unique.antt =====
-- Job ids are a primary key: distinct in every reachable table, so a row that was read before can be
-- told from its id.
use quarry.Base.{
  String, List, [], ◌∷◌, map, ◌≡◌, ◌≢◌, refl, sym, Bool, true, Bool-cases, inl, inr, arith, update,
  All, All-map, All-find, All-update,
}
use quarry.Store.Types.{Job, running}
use quarry.Store.Monad.{Store, int64}
use quarry.Life.Move.{Ends, Move, Move-id, settle, finish, requeue, queue, skip}
use quarry.Life.Stable.{IsStable}
use quarry.Life.Quiet.{Found}

abbrev pub Distinct : List String → Type 0
Distinct [] = Unit {0}
Distinct (x ∷ xs) = All (λ y. y ≢ x) xs × Distinct xs

abbrev pub ids : List Job → List String
ids js = map (λ (j : Job). j.id) js

abbrev pub IsUnique : Store → Type 0
IsUnique s = Distinct (ids s.jobs)

pub ids-update :
    (p : Job → Bool) (f : Job → Job) (js : List Job)
    → All (λ j. p j ≡ true → (f j).id ≡ j.id) js
    → ids (update p f js) ≡ ids js
unfolding update
ids-update p f [] h = refl
ids-update p f (j ∷ js) h = elim (Bool-cases (p j)) [
  | inl e ↦ rw e (cc (h.0 e, ids-update p f js h.1))
  | inr e ↦ rw e (cc (ids-update p f js h.1))
]

pub IsUnique-stable : IsStable Move IsUnique
IsUnique-stable = record {
  quiet = λ s t e g u. rw e u;
  closed =
      λ p f s h u. rw (ids-update p f s.jobs (All-map _ _ s.jobs (λ j k e. Move-id (k e)) h)) u;
}

-- Two rows with one id are the same row.
abbrev Apart : List Job → Job → Type 0
Apart js a = All (λ b. b.id ≡ a.id → b ≡ a) js

Apart-head : (x : Job) (xs : List Job) → All (λ y. y ≢ x.id) (ids xs) → Apart xs x
Apart-head x [] h = tt
Apart-head x (y ∷ ys) h = ((λ e. absurd (h.0 e)), Apart-head x ys h.1)

Apart-tail :
    (x : Job) (xs zs : List Job)
    → All (λ y. y ≢ x.id) (ids zs)
    → All (Apart xs) zs
    → All (Apart (x ∷ xs)) zs
Apart-tail x xs [] n h = tt
Apart-tail x xs (z ∷ zs) n h = (((λ e. absurd (n.0 (sym e))), h.0), Apart-tail x xs zs n.1 h.1)

pub Distinct-Apart : (js : List Job) → Distinct (ids js) → All (Apart js) js
Distinct-Apart [] u = tt
Distinct-Apart (x ∷ xs) u =
    (((λ e. refl), Apart-head x xs u.0), Apart-tail x xs xs u.0 (Distinct-Apart xs u.1))

-- What a row that was read tells of the row with its id, while no claim or request intervenes.
pub record IsLike (job j : Job) : Type 0 where
  pub bound : j.max_attempts ≡ job.max_attempts
  pub asked :
      j.state ≡ running
      → j.attempt ≡ job.attempt
      → int64 j.cancel_requested_at ≡ int64 job.cancel_requested_at

abbrev pub Snapshot : Job → Store → Type 0
Snapshot job s = All (λ j. j.id ≡ job.id → IsLike job j) s.jobs

Ends-IsLike :
    (job : Job) (s : Store) {j k : Job}
    → Ends s j k
    → (j.id ≡ job.id → IsLike job j)
    → k.id ≡ job.id
    → IsLike job k
Ends-IsLike job s (settle (queue time h r)) l e = ground (arith, l e)
Ends-IsLike job s (settle (skip time h)) l e = ground (arith, l e)
Ends-IsLike job s (finish st kind code msg time v h) l e = ground (arith, l e)
Ends-IsLike job s (requeue msg time h a c) l e = ground (arith, l e)

pub Snapshot-stable : (job : Job) → IsStable Ends (Snapshot job)
Snapshot-stable job = record {
  quiet = λ s t e g h. rw e h;
  closed = λ p f s g h.
      All-update _ p f s.jobs (All-map _ _ s.jobs (λ j m l t. Ends-IsLike job s (m t) l) g) h;
}

pub Snapshot-of_Apart : (job : Job) (s : Store) → Apart s.jobs job → Snapshot job s
Snapshot-of_Apart job s h = All-map _ _ s.jobs (λ j same e. like (same e)) h
  where
    like : {j : Job} → j ≡ job → IsLike job j
    like e = ground (arith, e)

-- Every row of the table is a snapshot of itself.
pub IsUnique-snapshots : (s : Store) → IsUnique s → All (λ job. Snapshot job s) s.jobs
IsUnique-snapshots s u =
    All-map _ _ s.jobs (λ job. Snapshot-of_Apart job s) (Distinct-Apart s.jobs u)

pub Found-Snapshot :
    (id : String) (job : Job) (s : Store)
    → IsUnique s
    → Found id job s
    → Snapshot job s × (job.id ≡ id)
Found-Snapshot id job s u e =
    let (h, t) = All-find (λ j. Snapshot j s) _ s.jobs job e (IsUnique-snapshots s u) in
    (h, ground (arith, t))

-- The rows of a list that was read are snapshots, and stay so.
abbrev pub Snapshots : List Job → Store → Type 0
Snapshots js s = All (λ job. Snapshot job s) js

pub Snapshots-stable : (js : List Job) → IsStable Ends (Snapshots js)
Snapshots-stable [] = record { quiet = λ s t e g h. tt; closed = λ p f s g h. tt }
Snapshots-stable (j ∷ js) = record {
  quiet =
      λ s t e g h. ((Snapshot-stable j).quiet s t e g h.0, (Snapshots-stable js).quiet s t e g h.1);
  closed = λ p f s g h.
      ((Snapshot-stable j).closed p f s g h.0, (Snapshots-stable js).closed p f s g h.1);
}
