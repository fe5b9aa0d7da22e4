-- ===== src/Pipeline/Needs.antt =====
-- The needs of the jobs of a pipeline, and what it is to come after them.
use quarry.Base.{
  ℕ, zero, suc, ◌+◌, ◌≤◌, String, List, [], ◌∷◌, ◌++◌, true, false, ◌≡◌, refl, sym, ap, ◌∙◌, inl,
  inr, arith, Bool-cases, leb, ◌==◌, String-eq, if◌then◌else◌, length, map, append_assoc,
  append-nil,
}
use quarry.Pipeline.Types.{PipelineJob}
use quarry.Pipeline.Topo.{Deps, dependents_of}
use quarry.Pipeline.Counts.{
  count, count-nil, count-cons_same, count-cons_other, count-append, same_name, same, same_self,
  count-cons_sum,
}

abbrev pub names : List PipelineJob → List String
names jobs = map (λ (j : PipelineJob). j.name) jobs

-- The needs of the job of a name.
unfoldable pub needs_in : List PipelineJob → String → List String
needs_in [] x = []
needs_in (j ∷ js) x = if j.name == x then j.needs else needs_in js x

abbrev absent : ℕ → ℕ
absent zero = 1
absent (suc n) = 0

-- How many needs are not among the names before.
abbrev pub missing : List String → List String → ℕ
missing before [] = 0
missing before (n ∷ ns) = absent (count before n) + missing before ns

-- Each name comes after the needs of its job.
abbrev pub Follows : List PipelineJob → List String → List String → Type 0
Follows jobs before [] = Unit {0}
Follows jobs before (x ∷ xs) =
    (missing before (needs_in jobs x) ≡ 0) × Follows jobs (before ++ x ∷ []) xs

-- The names of the jobs differ, and deps lists the dependents of each.
pub record IsGraph (jobs : List PipelineJob) (deps : Deps) : Type 0 where
  pub distinct : (x : String) → count (names jobs) x ≤ 1
  pub mirrored : (n x : String) → count (dependents_of deps n) x ≡ count (needs_in jobs x) n

pub missing-nil : (ns : List String) → missing [] ns ≡ length ns
missing-nil [] = refl
missing-nil (n ∷ ns) = omega (arith, missing-nil ns, ap absent (count-nil n))

pub count-snoc :
    (out : List String) (n x : String) → count (out ++ n ∷ []) x ≡ count out x + same n x
count-snoc out n x = omega (arith, count-append out (n ∷ []) x, count-cons_sum n [] x, count-nil x)

absent_none : (k : ℕ) → k ≡ 0 → absent k ≡ 1
absent_none zero h = refl
absent_none (suc k) h = absurd (omega (arith, h))

absent_some : (k : ℕ) → 1 ≤ k → absent k ≡ 0
absent_some zero h = absurd (omega (arith, h))
absent_some (suc k) h = refl

same_names : (m n : String) → (m == n) ≡ true → same n m ≡ 1
same_names m n t = ap (λ z. same n z) (same_name m n t) ∙ same_self n

pub other_names : (m n : String) → (m == n) ≡ false → same n m ≡ 0
other_names m n t = ground (arith, t)

pub missing-snoc :
    (out : List String) (n : String) (ns : List String)
    → count out n ≡ 0
    → missing out ns ≡ missing (out ++ n ∷ []) ns + count ns n
missing-snoc out n [] h = omega (arith, count-nil n)
missing-snoc out n (m ∷ ns) h = elim (Bool-cases (m == n)) [
  | inl t ↦ omega (
    arith,
    missing-snoc out n ns h,
    count-cons_same m ns n t,
    absent_none (count out m) (ap (count out) (same_name m n t) ∙ h),
    absent_some (count (out ++ n ∷ []) m) (omega (arith, count-snoc out n m, same_names m n t)),
  )
  | inr t ↦
      let unchanged : count (out ++ n ∷ []) m ≡ count out m =
        omega (arith, count-snoc out n m, other_names m n t) in
      omega (arith, missing-snoc out n ns h, count-cons_other m ns n t, ap absent unchanged)
]

pub Follows-snoc :
    (jobs : List PipelineJob) (before xs : List String) (x : String)
    → Follows jobs before xs
    → missing (before ++ xs) (needs_in jobs x) ≡ 0
    → Follows jobs before (xs ++ x ∷ [])
Follows-snoc jobs before [] x f e =
    (ap (λ b. missing b (needs_in jobs x)) (sym (append-nil before)) ∙ e, tt)
Follows-snoc jobs before (y ∷ ys) x f e = (
  f.0,
  Follows-snoc jobs (before ++ y ∷ []) ys x f.1
      (ap (λ b. missing b (needs_in jobs x)) (append_assoc before (y ∷ []) ys) ∙ e),
)

pub missing_more :
    (before out ns : List String)
    → ((x : String) → 1 ≤ count before x → 1 ≤ count out x)
    → missing before ns ≡ 0
    → missing out ns ≡ 0
missing_more before out [] h e = refl
missing_more before out (n ∷ ns) h e = elim (Bool-cases (leb 1 (count before n))) [
  | inl t ↦ omega (
    arith,
    absent_some (count out n) (h n (ground (arith, t))),
    missing_more before out ns h (omega (arith, e)),
  )
  | inr t ↦ absurd (omega (arith, e, absent_none (count before n) (ground (arith, t))))
]

-- A job that has needs is a job.
pub needs_in-count :
    (js : List PipelineJob) (x n : String) → 1 ≤ count (needs_in js x) n → 1 ≤ count (names js) x
unfolding needs_in
needs_in-count [] x n h = absurd (omega (arith, h, count-nil n))
needs_in-count (j ∷ js) x n h = elim (Bool-cases (j.name == x)) [
  | inl t ↦ omega (arith, count-cons_same j.name (names js) x t)
  | inr t ↦ omega (arith, count-cons_other j.name (names js) x t, needs_in-count js x n (rw t at h))
]
