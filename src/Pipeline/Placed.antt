-- ===== src/Pipeline/Placed.antt =====
-- The first loop of finalize: when it finds no problem, the names differ and each stands at its place.
use quarry.Base.{
  ℕ, suc, ◌≤◌, String, List, [], ◌∷◌, ◌++◌, none, some, Option-cases, Bool, true, false, ◌≡◌, refl,
  sym, ap, ◌∙◌, subst, inl, inr, arith, Bool-cases, ◌==◌, String-eq, if◌then◌else◌,
}
use quarry.Pipeline.Types.{PipelineJob}
use quarry.Pipeline.Counts.{count, count-nil, count-cons_same, count-cons_other, same_name}
use quarry.Pipeline.Needs.{names}
use quarry.Pipeline.Validate.{
  Names, place, is_known, Checked, is_left_out, problems_of, job_problems, check_jobs, nameless,
  duplicate, Problem, with_default,
}

pub append-empty : {A : Type 0} (xs ys : List A) → xs ++ ys ≡ [] → (xs ≡ []) × (ys ≡ [])
append-empty [] ys h = (refl, h)
append-empty (x ∷ xs) ys h = absurd (grind (arith, h))

-- Each job stands in the map byName under its name with its number.
abbrev pub Placed : Names → ℕ → List PipelineJob → Type 0
Placed m i [] = Unit {0}
Placed m i (j ∷ js) = (place m j.name ≡ some i) × Placed m (suc i) js

place-snoc_kept :
    (m : Names) (n : String) (i : ℕ) (k : String) (v : ℕ)
    → place m k ≡ some v
    → place (m ++ (n, i) ∷ []) k ≡ some v
unfolding place
place-snoc_kept [] n i k v h = absurd (grind (arith, h))
place-snoc_kept ((j, w) ∷ m) n i k v h = elim (Bool-cases (j == k)) [
  | inl t ↦ rw t (rw t at h)
  | inr t ↦ rw t (place-snoc_kept m n i k v (rw t at h))
]

place-snoc_new :
    (m : Names) (n : String) (i : ℕ) → place m n ≡ none → place (m ++ (n, i) ∷ []) n ≡ some i
unfolding place
place-snoc_new [] n i h = ground arith
place-snoc_new ((j, w) ∷ m) n i h = elim (Bool-cases (j == n)) [
  | inl t ↦ absurd (ground (arith, t, h))
  | inr t ↦ rw t (place-snoc_new m n i (rw t at h))
]

unknown : (m : Names) (k : String) → is_known m k ≡ false → place m k ≡ none
unknown m k h = elim (Option-cases (place m k)) [
  | inl e ↦ e
  | inr (v, e) ↦ absurd (ground (arith, e, h))
]

known : (m : Names) (k : String) (v : ℕ) → place m k ≡ some v → is_known m k ≡ true
known m k v h = ap (λ o. elim o [ none ↦ false | some i ↦ true ]) h

known_still :
    (m : Names) (n : String) (i : ℕ) (k : String)
    → is_known m k ≡ true
    → is_known (m ++ (n, i) ∷ []) k ≡ true
known_still m n i k h = elim (Option-cases (place m k)) [
  | inl e ↦ absurd (ground (arith, e, h))
  | inr (v, e) ↦ known (m ++ (n, i) ∷ []) k v (place-snoc_kept m n i k v e)
]

pub record Clean (i : ℕ) (m : Names) (c : Checked) : Type 0 where
  pub distinct : (x : String) → count (names c.jobs) x ≤ 1
  pub fresh : (x : String) → is_known m x ≡ true → count (names c.jobs) x ≡ 0
  pub kept : (k : String) (v : ℕ) → place m k ≡ some v → place c.names k ≡ some v
  pub placed : Placed c.names i c.jobs

clear :
    (a b : Bool) (p q : Problem) (r : List Problem)
    → (if a then p ∷ [] else if b then q ∷ [] else r) ≡ []
    → (a ≡ false) × (b ≡ false)
clear true b p q r h = absurd (grind (arith, h))
clear false true p q r h = absurd (grind (arith, h))
clear false false p q r h = (refl, refl)

not_left_out :
    (i : ℕ) (m : Names) (j : PipelineJob)
    → problems_of i m j ≡ []
    → ((j.name == "") ≡ false) × (is_known m j.name ≡ false)
not_left_out i m j h =
    clear (j.name == "") (is_known m j.name) (nameless (suc i)) (duplicate j.name) (job_problems j)
      h

joined :
    (i : ℕ) (m : Names) (j : PipelineJob) (c : Checked) (ps : List Problem)
    → is_known m j.name ≡ false
    → Clean (suc i) (m ++ (j.name, i) ∷ []) c
    → Clean i m (record c { problems = ps; jobs = with_default j ∷ c.jobs })
joined i m j c ps f r =
    let new = place-snoc_new m j.name i (unknown m j.name f) in
    record {
      distinct = λ x. elim (Bool-cases (j.name == x)) [
        | inl t ↦ omega (
          arith,
          count-cons_same j.name (names c.jobs) x t,
          r.fresh x (
              subst (λ y. is_known (m ++ (j.name, i) ∷ []) y ≡ true) (same_name j.name x t)
                (known (m ++ (j.name, i) ∷ []) j.name i new)),
        )
        | inr t ↦ omega (arith, count-cons_other j.name (names c.jobs) x t, r.distinct x)
      ];
      fresh = λ x e. elim (Bool-cases (j.name == x)) [
        | inl t ↦ absurd (contrary (e_at x t e) f)
        | inr t ↦
            count-cons_other j.name (names c.jobs) x t ∙ r.fresh x (known_still m j.name i x e)
      ];
      kept = λ k v e. r.kept k v (place-snoc_kept m j.name i k v e);
      placed = (r.kept j.name i new, r.placed);
    }
  where
    contrary : is_known m j.name ≡ true → is_known m j.name ≡ false → ⊥
    contrary a b = ground (arith, a, b)

    e_at : (x : String) → (j.name == x) ≡ true → is_known m x ≡ true → is_known m j.name ≡ true
    e_at x t e = subst (λ y. is_known m y ≡ true) (sym (same_name j.name x t)) e

pub check_jobs-Clean :
    (i : ℕ) (m : Names) (js : List PipelineJob)
    → (check_jobs i m js).problems ≡ []
    → Clean i m (check_jobs i m js)
unfolding check_jobs
check_jobs-Clean i m [] h = record {
  distinct = λ x. omega (arith, count-nil x);
  fresh = λ x e. count-nil x;
  kept = λ k v e. e;
  placed = tt;
}
check_jobs-Clean i m (j ∷ js) h =
    let (p, rest) = append-empty (problems_of i m j) _ h in
    let (a, b) = not_left_out i m j p in
    let e : is_left_out m j ≡ false = ground (arith, a, b) in
    rw e (
      joined i m j (check_jobs (suc i) (m ++ (j.name, i) ∷ []) js) _ b
        (check_jobs-Clean (suc i) (m ++ (j.name, i) ∷ []) js (rw e at rest)))
