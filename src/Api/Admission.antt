-- ===== src/Api/Admission.antt =====
-- What the first part of an upload has checked when Put has succeeded.
use quarry.Base.{
  ℤ, pos, negsuc, is_negative, ℕ, String, List, Option, none, some, Bool, true, false, ◌==◌, ℕ-eq,
  String-eq, if◌then◌else◌, find, ◌≡◌, refl, sym, ap, ◌∙◌, subst, arith, Bool-cases, inl, inr,
}
use quarry.Store.Types.{Job}
use quarry.Store.Monad.{Store, Outcome, ok, err, throw, not_found}
use quarry.Store.Jobs.{get_job}
use quarry.Api.Artifacts.{
  Status, Upload, positive, magnitude, is_valid, check_upload, runs_attempt, key_of, Stored, stored,
  too_long, broken, Blobs, refused, pending, by_put, by_job, by_check, by_attempt, begin_upload,
}

pub get_job-found :
    (id : String) (s : Store) (j : Job) (t : Store)
    → get_job id s ≡ ok j t
    → (t ≡ s) × (find (λ (j : Job). j.id == id) s.jobs ≡ some j)
unfolding get_job throw
get_job-found id s j t e = go (find (λ (j : Job). j.id == id) s.jobs) refl e
  where
    go :
        (o : Option Job)
        → find (λ (j : Job). j.id == id) s.jobs ≡ o
        → (elim o [ none ↦ throw not_found s | some k ↦ ok k s ]) ≡ ok j t
        → (t ≡ s) × (find (λ (j : Job). j.id == id) s.jobs ≡ some j)
    go none f e = absurd (grind (arith, e))
    go (some k) f e = (grind (arith, e), f ∙ ap some (grind (arith, e)))

module _ {O : Type 0} (blobs : Blobs O) (sha256 : List ℕ → String) where
  -- What holds when Put has succeeded.
  pub record Admitted (u : Upload) (s : Store) (o : O) (n : ℕ) (key : List ℕ) (o' : O)
      : Type 0 where
    pub owner : Job
    pub attempt : positive u.attempt ≡ some n
    pub valid : is_valid u.path ≡ true
    pub sized : u.size ≡ pos (magnitude u.size)
    pub job : get_job u.job_id s ≡ ok owner s
    pub runs : runs_attempt n owner ≡ true
    pub key_is : key ≡ key_of owner n u.path
    pub put : blobs.put key u.body (magnitude u.size) o ≡ stored o'

  put_inv :
      (m n : ℕ) (k key : List ℕ) (r : Stored O) (o' : O)
      → by_put blobs sha256 m k r ≡ pending n key o'
      → (m ≡ n) × (k ≡ key) × (r ≡ stored o')
  put_inv m n k key (stored o) o' e = (grind (arith, e), grind (arith, e), grind (arith, e))
  put_inv m n k key (too_long o) o' e = absurd (grind (arith, e))
  put_inv m n k key (broken o) o' e = absurd (grind (arith, e))

  check_valid : (u : Upload) → check_upload u ≡ none → is_valid u.path ≡ true
  check_valid u e = elim (Bool-cases (is_valid u.path)) [
    | inl t ↦ t
    | inr f ↦ absurd (ground (arith, f, e))
  ]

  not_negative : (z : ℤ) → is_negative z ≡ false → z ≡ pos (magnitude z)
  not_negative (pos n) e = refl
  not_negative (negsuc n) e = absurd (ground (arith, e))

  check_sized : (u : Upload) → check_upload u ≡ none → u.size ≡ pos (magnitude u.size)
  check_sized u e = elim (Bool-cases (is_negative u.size)) [
    | inl t ↦ absurd (ground (arith, t, check_valid u e, e))
    | inr f ↦ not_negative u.size f
  ]

  pub begin_upload-Admitted :
      (u : Upload) (s : Store) (o : O) (n : ℕ) (key : List ℕ) (o' : O)
      → begin_upload blobs sha256 u s o ≡ pending n key o'
      → Admitted u s o n key o'
  unfolding begin_upload
  begin_upload-Admitted u s o n key o' e = from_attempt (positive u.attempt) refl e
    where
      from_fence :
          (m : ℕ)
          → positive u.attempt ≡ some m
          → (is_valid u.path ≡ true) × (u.size ≡ pos (magnitude u.size))
          → (j : Job) → get_job u.job_id s ≡ ok j s
          → (b : Bool) → runs_attempt m j ≡ b
          → (if b
              then by_put blobs sha256 m
                  (key_of j m u.path)
                  (blobs.put (key_of j m u.path) u.body (magnitude u.size) o)
              else refused Status.conflict o)
            ≡ pending n key o'
          → Admitted u s o n key o'
      from_fence m a v j g true r h =
          let (mn, kk, p) =
            put_inv m n (key_of j m u.path) key
              (blobs.put (key_of j m u.path) u.body (magnitude u.size) o) o' h in
          record {
            owner = j;
            attempt = a ∙ ap some mn;
            valid = v.0;
            sized = v.1;
            job = g;
            runs = subst (λ i. runs_attempt i j ≡ true) mn r;
            key_is = sym kk ∙ ap (λ i. key_of j i u.path) mn;
            put = subst (λ k. blobs.put k u.body (magnitude u.size) o ≡ stored o') kk p;
          }
      from_fence m a v j g false r h = absurd (grind (arith, h))

      from_job :
          (m : ℕ)
          → positive u.attempt ≡ some m
          → (is_valid u.path ≡ true) × (u.size ≡ pos (magnitude u.size))
          → (r : Outcome Job) → get_job u.job_id s ≡ r
          → by_job blobs sha256 u m o r ≡ pending n key o'
          → Admitted u s o n key o'
      from_job m a v (err e t) g h = absurd (grind (arith, h))
      from_job m a v (ok j t) g h =
          from_fence m a v j (g ∙ ap (ok j) (get_job-found u.job_id s j t g).0) (runs_attempt m j)
            refl h

      from_check :
          (m : ℕ)
          → positive u.attempt ≡ some m
          → (c : Option Status) → check_upload u ≡ c
          → by_check blobs sha256 u m s o c ≡ pending n key o'
          → Admitted u s o n key o'
      from_check m a (some st) c h = absurd (grind (arith, h))
      from_check m a none c h =
          from_job m a (check_valid u c, check_sized u c) (get_job u.job_id s) refl h

      from_attempt :
          (a : Option ℕ)
          → positive u.attempt ≡ a
          → by_attempt blobs sha256 u s o a ≡ pending n key o'
          → Admitted u s o n key o'
      from_attempt none a h = absurd (grind (arith, h))
      from_attempt (some m) a h = from_check m a (check_upload u) refl h
