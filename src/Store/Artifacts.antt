-- ===== src/Store/Artifacts.antt =====
-- internal/store/artifacts.go
use quarry.Base.{
  ℕ, String, List, [], ◌∷◌, ◌++◌, Option, none, some, Bool, true, false, ◌&&◌, ◌==◌, ℕ-eq,
  String-eq, ltb, if◌then◌else◌, select, find, any, update, codes, ◌≡◌, refl, arith, Bool-cases,
  inl, inr, sym, ap, ◌∙◌, subst,
}
use quarry.Store.Types.{Artifact, Job}
use quarry.Store.Monad.{Store, ok, err, not_found, constraint, M, now, ◌>>=◌, Outcome, final}

abbrev pub is_artifact : String → ℕ → String → Artifact → Bool
is_artifact job_id attempt path a = a.job_id == job_id && (a.attempt == attempt && a.path == path)

abbrev pub created : Artifact → ℕ → Artifact
created a at = record a { created_at = at }

abbrev replaced : Artifact → Artifact → Artifact
replaced new a = record a {
  size_bytes = new.size_bytes;
  sha256 = new.sha256;
  content_type = new.content_type;
  created_at = new.created_at;
}

-- INSERT … ON CONFLICT (job_id, attempt, path) DO UPDATE.
abbrev pub put_row : Artifact → List Artifact → List Artifact
put_row a rows =
    if any (is_artifact a.job_id a.attempt a.path) rows
    then update (is_artifact a.job_id a.attempt a.path) (replaced a) rows
    else rows ++ a ∷ []

-- The foreign key refuses an artifact of a job that is not there.
abbrev pub put_artifact : Artifact → M (Unit {0})
put_artifact a s =
    if any (λ (j : Job). j.id == a.job_id) s.jobs
    then ok tt (record s { artifacts = put_row a s.artifacts })
    else err constraint s

unfoldable pub upsert_artifact : Artifact → M (Unit {0})
upsert_artifact a = now >>= λ at. put_artifact (created a at)

unfoldable pub get_artifact : String → ℕ → String → M Artifact
get_artifact job_id attempt path s = elim (find (is_artifact job_id attempt path) s.artifacts) [
  | none ↦ err not_found s
  | some a ↦ ok a s
]

-- The order of texts in the database: by their bytes.
abbrev bytes_le : List ℕ → List ℕ → Bool
bytes_le [] ds = true
bytes_le (c ∷ cs) [] = false
bytes_le (c ∷ cs) (d ∷ ds) = if c == d then bytes_le cs ds else ltb c d

unfoldable pub insert_by_path : Artifact → List Artifact → List Artifact
insert_by_path a [] = a ∷ []
insert_by_path a (b ∷ bs) =
    if bytes_le (codes a.path) (codes b.path) then a ∷ b ∷ bs else b ∷ insert_by_path a bs

-- ORDER BY path
unfoldable pub by_path : List Artifact → List Artifact
unfolding insert_by_path
by_path [] = []
by_path (a ∷ bs) = insert_by_path a (by_path bs)

unfoldable pub list_artifacts : String → ℕ → M (List Artifact)
list_artifacts job_id attempt s =
    ok (by_path (select (λ (a : Artifact). a.job_id == job_id && a.attempt == attempt) s.artifacts))
      s

same_key :
    (j j' : String) (t t' : ℕ) (p p' : String)
    → (j == j' && (t == t' && p == p')) ≡ true
    → (j ≡ j') × (t ≡ t') × (p ≡ p')
same_key j j' t t' p p' e = (ground (arith, e), ground (arith, e), ground (arith, e))

module _ (a : Artifact) where
  abbrev mine : Artifact → Bool
  mine = is_artifact a.job_id a.attempt a.path

  mine_self : mine a ≡ true
  mine_self = ground arith

  replaced-mine : (x : Artifact) → mine x ≡ true → replaced a x ≡ a
  replaced-mine x e =
      let (i, n, p) = same_key x.job_id a.job_id x.attempt a.attempt x.path a.path e in
      ap (λ j. record a { job_id = j; attempt = x.attempt; path = x.path }) i
      ∙ (ap (λ t. record a { attempt = t; path = x.path }) n ∙ ap (λ q. record a { path = q }) p)

  find-updated_same :
      (rows : List Artifact)
      → any mine rows ≡ true
      → find mine (update mine (replaced a) rows) ≡ some a
  unfolding find update any
  find-updated_same [] h = absurd (ground (arith, h))
  find-updated_same (x ∷ xs) h = elim (Bool-cases (mine x)) [
    | inl t ↦ rw (t, t) (ap some (replaced-mine x t))
    | inr t ↦ rw (t, t) (find-updated_same xs (rw (t, any) at h))
  ]

  find-append_same :
      (rows : List Artifact) → any mine rows ≡ false → find mine (rows ++ a ∷ []) ≡ some a
  unfolding find any
  find-append_same [] h = rw mine_self refl
  find-append_same (x ∷ xs) h = elim (Bool-cases (mine x)) [
    | inl t ↦ absurd (ground (arith, t, h))
    | inr t ↦ rw t (find-append_same xs (rw (t, any) at h))
  ]

  find-put_row_same : (rows : List Artifact) → find mine (put_row a rows) ≡ some a
  find-put_row_same rows = elim (Bool-cases (any mine rows)) [
    | inl t ↦ rw t (find-updated_same rows t)
    | inr t ↦ rw t (find-append_same rows t)
  ]

  module _ (j : String) (t : ℕ) (p : String) (other : is_artifact j t p a ≡ false) where
    not_other : (x : Artifact) → mine x ≡ true → is_artifact j t p x ≡ false
    not_other x e = ap (is_artifact j t p) (replaced-mine x e) ∙ other

    find-update_other :
        (rows : List Artifact)
        → find (is_artifact j t p) (update mine (replaced a) rows) ≡ find (is_artifact j t p) rows
    unfolding find update
    find-update_other [] = refl
    find-update_other (x ∷ xs) = elim (Bool-cases (mine x)) [
      | inl e ↦ rw (e, not_other x e) (find-update_other xs)
      | inr e ↦ rw e (ap (λ o. if is_artifact j t p x then some x else o) (find-update_other xs))
    ]

    find-append_other :
        (rows : List Artifact)
        → find (is_artifact j t p) (rows ++ a ∷ []) ≡ find (is_artifact j t p) rows
    unfolding find
    find-append_other [] = rw other refl
    find-append_other (x ∷ xs) =
        ap (λ o. if is_artifact j t p x then some x else o) (find-append_other xs)

    find-put_row_other :
        (rows : List Artifact)
        → find (is_artifact j t p) (put_row a rows) ≡ find (is_artifact j t p) rows
    find-put_row_other rows = elim (Bool-cases (any mine rows)) [
      | inl e ↦ rw e (find-update_other rows)
      | inr e ↦ rw e (find-append_other rows)
    ]

find-put_row :
    (a : Artifact) (j : String) (t : ℕ) (p : String) (rows : List Artifact)
    → find (is_artifact j t p) (put_row a rows)
      ≡ (if is_artifact j t p a then some a else find (is_artifact j t p) rows)
find-put_row a j t p rows = elim (Bool-cases (is_artifact j t p a)) [
  | inl e ↦
      let (i, n, q) = same_key a.job_id j a.attempt t a.path p e in
      rw e (
        subst (λ k. find (is_artifact k t p) (put_row a rows) ≡ some a) i
          (subst (λ k. find (is_artifact a.job_id k p) (put_row a rows) ≡ some a) n
            (subst (λ k. find (is_artifact a.job_id a.attempt k) (put_row a rows) ≡ some a) q
              (find-put_row_same a rows))))
  | inr e ↦ rw e (find-put_row_other a j t p e rows)
]

abbrev pub found : {A : Type 0} → Outcome A → Option A
found (ok a s) = some a
found (err e s) = none

found-get_artifact :
    (s : Store) (j : String) (t : ℕ) (p : String)
    → found (get_artifact j t p s) ≡ find (is_artifact j t p) s.artifacts
unfolding get_artifact
found-get_artifact s j t p = go (find (is_artifact j t p) s.artifacts)
  where
    go : (o : Option Artifact) → found (elim o [ none ↦ err not_found s | some a ↦ ok a s ]) ≡ o
    go none = refl
    go (some a) = refl

recorded :
    (s : Store) (a : Artifact)
    → any (λ (job : Job). job.id == a.job_id) s.jobs ≡ true
    → (final (upsert_artifact a s)).artifacts ≡ put_row (created a (s.clock 0)) s.artifacts
unfolding ◌>>=◌ upsert_artifact now
recorded s a h = rw h refl

-- When its job is in the table, the artifact that is recorded is the one that is read back under its
-- job, attempt and path, with the time of the call; whatever else is read is as it was.
pub get_artifact-upsert_artifact :
    (s : Store) (a : Artifact) (j : String) (t : ℕ) (p : String)
    → any (λ (job : Job). job.id == a.job_id) s.jobs ≡ true
    → found (get_artifact j t p (final (upsert_artifact a s)))
      ≡ (if is_artifact j t p a then some (created a (s.clock 0)) else found (get_artifact j t p s))
get_artifact-upsert_artifact s a j t p h =
    found-get_artifact (final (upsert_artifact a s)) j t p
    ∙ (ap (find (is_artifact j t p)) (recorded s a h)
        ∙ (find-put_row (created a (s.clock 0)) j t p s.artifacts
            ∙ ap (λ o. if is_artifact j t p a then some (created a (s.clock 0)) else o)
                (sym (found-get_artifact s j t p))))
