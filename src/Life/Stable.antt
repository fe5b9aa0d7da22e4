-- ===== src/Life/Stable.antt =====
-- Properties of the store that the moves of a class V of row changes keep.
use quarry.Base.{[], ◌∷◌, Bool-cases, inl, inr, List, All, All-map, ◌≡◌, refl, Bool, true, update}
use quarry.Store.Types.{Job}
use quarry.Store.Monad.{Store, now}
use quarry.Store.Rules.{Keeps, IsTimeless, Keeps-now}
use quarry.Store.Jobs.{update_jobs}
use quarry.Life.Move.{Settles, Ends, Move, settle, end}

-- A class of row changes, each in a store.
abbrev pub Class : Type 1
Class = Store → Job → Job → Type 0

-- Every row that the update changes moves by V.
abbrev pub Guarded : Class → (Job → Bool) → (Job → Job) → Store → Type 0
Guarded V p f s = All (λ j. p j ≡ true → V s j (f j)) s.jobs

-- A property that depends on the tables jobs and job_deps only, and that V keeps.
pub record IsStable (V : Class) (P : Store → Type 0) : Type 0 where
  pub quiet : (s t : Store) → t.jobs ≡ s.jobs → t.job_deps ≡ s.job_deps → P s → P t
  pub closed :
      (p : Job → Bool) (f : Job → Job) (s : Store)
      → Guarded V p f s
      → P s
      → P (record s { jobs = update p f s.jobs })

pub IsStable-mono :
    (V W : Class) {P : Store → Type 0}
    → ((s : Store) (j k : Job) → W s j k → V s j k)
    → IsStable V P
    → IsStable W P
IsStable-mono V W f c = record {
  quiet = c.quiet;
  closed = λ p g s h. c.closed p g s (All-map _ _ s.jobs (λ j k e. f s j (g j) (k e)) h);
}

pub IsStable-Ends : {P : Store → Type 0} → IsStable Move P → IsStable Ends P
IsStable-Ends c = IsStable-mono Move Ends (λ s j k. end) c

pub IsStable-Settles : {P : Store → Type 0} → IsStable Ends P → IsStable Settles P
IsStable-Settles c = IsStable-mono Ends Settles (λ s j k. settle) c

-- No row moves: what is stable for this class depends on the tables only.
abbrev pub Never : Class
Never s j k = ⊥

pub update-none :
    (p : Job → Bool) (f : Job → Job) (js : List Job)
    → All (λ j. p j ≡ true → ⊥) js
    → update p f js ≡ js
unfolding update
update-none p f [] h = refl
update-none p f (j ∷ js) h = elim (Bool-cases (p j)) [
  | inl e ↦ absurd (h.0 e)
  | inr e ↦ rw e (cc (update-none p f js h.1))
]

pub IsStable-Never :
    {P : Store → Type 0}
    → ((s t : Store) → t.jobs ≡ s.jobs → t.job_deps ≡ s.job_deps → P s → P t)
    → IsStable Never P
IsStable-Never quiet = record {
  quiet = quiet;
  closed = λ p f s g h. quiet s _ (update-none p f s.jobs g) refl h;
}

-- Two properties at once.
abbrev pub Both : (Store → Type 0) → (Store → Type 0) → Store → Type 0
Both P Q s = P s × Q s

pub IsStable-Both :
    {V : Class} {P Q : Store → Type 0} → IsStable V P → IsStable V Q → IsStable V (Both P Q)
IsStable-Both c d = record {
  quiet = λ s t e g (a, b). (c.quiet s t e g a, d.quiet s t e g b);
  closed = λ p f s h (a, b). (c.closed p f s h a, d.closed p f s h b);
}

module _ {V : Class} {P : Store → Type 0} (c : IsStable V P) where
  pub IsStable-IsTimeless : IsTimeless P
  IsStable-IsTimeless = record { at = λ s k. c.quiet s (record s { clock = k }) refl refl }

  pub now-Keeps : Keeps P now
  now-Keeps = Keeps-now IsStable-IsTimeless

  pub update_jobs-Keeps :
      (p : Job → Bool) (f : Job → Job)
      → ((s : Store) → P s → Guarded V p f s)
      → Keeps P (update_jobs p f)
  unfolding update_jobs
  update_jobs-Keeps p f h = record { at = λ s k. c.closed p f s (h s k) k }
