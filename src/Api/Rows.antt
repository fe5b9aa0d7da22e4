-- ===== src/Api/Rows.antt =====
-- Reading rows, and a transaction that succeeds.
use quarry.Base.{
  ℕ, String, List, [], ◌∷◌, Option, none, some, Bool, true, ◌==◌, ℕ-eq, String-eq, find, any, ◌≡◌,
  refl, sym, ap, ◌∙◌, arith, Bool-cases, inl, inr,
}
use quarry.Store.Types.{Artifact, Job}
use quarry.Store.Monad.{Store, M, ok, err, throw, not_found, final, ◌>>=◌, tx, now}
use quarry.Store.Jobs.{get_job}
use quarry.Store.Artifacts.{upsert_artifact, get_artifact, found, is_artifact}

abbrev pub holds_job : String → Store → Bool
holds_job id s = any (λ (j : Job). j.id == id) s.jobs

pub find-any :
    (id : String) (js : List Job) (j : Job)
    → find (λ (j : Job). j.id == id) js ≡ some j
    → (any (λ (j : Job). j.id == id) js ≡ true) × (j.id ≡ id)
unfolding find any
find-any id [] j e = absurd (grind (arith, e))
find-any id (k ∷ ks) j e = elim (Bool-cases (k.id == id)) [
  | inl t ↦
      let same : k ≡ j = ground (arith, t, e) in
      (rw t refl, ap (λ (j : Job). j.id) (sym same) ∙ ground (arith, t))
  | inr t ↦ let (a, b) = find-any id ks j (rw (t, find) at e) in (rw t a, b)
]

pub tx-ok : {A : Type 0} (m : M A) (s : Store) (a : A) (t : Store) → m s ≡ ok a t → tx m s ≡ ok a t
unfolding tx
tx-ok m s a t e =
    ap (λ o. elim o [ ok a s' ↦ ok a s' | err e s' ↦ err e (record s { clock = s'.clock }) ]) e

pub upsert_returns :
    (a : Artifact) (s : Store)
    → holds_job a.job_id s ≡ true
    → upsert_artifact a s ≡ ok tt (final (upsert_artifact a s))
unfolding upsert_artifact ◌>>=◌ now
upsert_returns a s h = rw h refl

pub upsert_jobs :
    (a : Artifact) (s : Store)
    → holds_job a.job_id s ≡ true
    → (final (upsert_artifact a s)).jobs ≡ s.jobs
unfolding upsert_artifact ◌>>=◌ now
upsert_jobs a s h = rw h refl

pub upsert_frame :
    (a : Artifact) (s : Store)
    → holds_job a.job_id s ≡ true
    → let t = final (upsert_artifact a s) in
      t ≡ record s { clock = t.clock; artifacts = t.artifacts }
unfolding upsert_artifact ◌>>=◌ now
upsert_frame a s h = rw h refl

pub get_job-of :
    (id : String) (s : Store) (j : Job)
    → find (λ (j : Job). j.id == id) s.jobs ≡ some j
    → get_job id s ≡ ok j s
unfolding get_job
get_job-of id s j e = rw (e, get_job) refl

pub get_job-none :
    (id : String) (s : Store)
    → find (λ (j : Job). j.id == id) s.jobs ≡ none
    → get_job id s ≡ err not_found s
unfolding get_job throw
get_job-none id s e = rw (e, get_job) refl

pub get_artifact-of :
    (id : String) (n : ℕ) (p : String) (s : Store) (a : Artifact)
    → found (get_artifact id n p s) ≡ some a
    → get_artifact id n p s ≡ ok a s
unfolding get_artifact
get_artifact-of id n p s a e = go (find (is_artifact id n p) s.artifacts) e
  where
    go :
        (o : Option Artifact)
        → found (elim o [ none ↦ err not_found s | some a ↦ ok a s ]) ≡ some a
        → (elim o [ none ↦ err not_found s | some a ↦ ok a s ]) ≡ ok a s
    go none h = absurd (grind (arith, h))
    go (some b) h = ap (λ x. ok x s) (grind (arith, h))
