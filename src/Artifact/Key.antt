-- ===== src/Artifact/Key.antt =====
-- What the checks of artifact paths accept, and how keys are read back.
use native.Mathlib.Decide.{ℕ_discrete}
use quarry.Base.{
  ℕ, ◌+◌, List, [], ◌∷◌, ◌++◌, false, ◌==◌, ℕ-eq, ltb, codes, split, decimal, join, Lacks,
  join-split, split-append, append_assoc, ◌≡◌, refl, sym, ap, ◌∙◌, arith, inl, inr, Bool-cases,
  number_from, number_from-decimal, digits, ◌%◌, suc, zero, ◌/◌,
}
use quarry.Artifact.Path.{slash, job_key}

Lacks-append : (c : ℕ) (xs ys : List ℕ) → Lacks c xs → Lacks c ys → Lacks c (xs ++ ys)
Lacks-append c [] ys h k = k
Lacks-append c (x ∷ xs) ys h k = (h.0, Lacks-append c xs ys h.1 k)

digit-slash : (n : ℕ) → (48 + n % 10 == slash) ≡ false
digit-slash n = ground arith

digits-Lacks : (fuel n : ℕ) → Lacks slash (digits fuel n)
unfolding digits
digits-Lacks zero n = (digit-slash n, tt)
digits-Lacks (suc fuel) n = elim (Bool-cases (ltb n 10)) [
  | inl t ↦ rw t (digit-slash n, tt)
  | inr t ↦
      rw t (
        Lacks-append slash (digits fuel (n / 10)) _ (digits-Lacks fuel (n / 10))
          (digit-slash n, tt))
]

decimal-Lacks : (n : ℕ) → Lacks slash (decimal n)
unfolding decimal
decimal-Lacks n = digits-Lacks n n

-- The parts of a key: the ids, the digits of the attempt, and the segments of the path.
flat :
    (run_id job_id : List ℕ) (attempt : ℕ) (path : List ℕ)
    → job_key run_id job_id attempt path
      ≡ codes "runs"
        ++ slash
          ∷ (run_id
              ++ slash
                ∷ (codes "jobs" ++ slash ∷ (job_id ++ slash ∷ (decimal attempt ++ slash ∷ path))))
flat run_id job_id attempt path =
    ap (λ l. codes "runs/" ++ l)
      (append_assoc run_id _ path
        ∙ ap (λ l. run_id ++ (codes "/jobs/" ++ l))
            (append_assoc job_id _ path
              ∙ ap (λ l. job_id ++ slash ∷ l) (append_assoc (decimal attempt) (slash ∷ []) path)))

split-job_key :
    (run_id job_id : List ℕ) (attempt : ℕ) (path : List ℕ)
    → Lacks slash run_id
    → Lacks slash job_id
    → split slash (job_key run_id job_id attempt path)
      ≡ codes "runs" ∷ run_id ∷ codes "jobs" ∷ job_id ∷ decimal attempt ∷ split slash path
unfolding ℕ_discrete
split-job_key run_id job_id attempt path r j =
    ap (split slash) (flat run_id job_id attempt path)
    ∙ (split-append slash (codes "runs") _ (refl, (refl, (refl, (refl, tt))))
        ∙ ap (λ l. codes "runs" ∷ l)
            (split-append slash run_id _ r
              ∙ ap (λ l. run_id ∷ l)
                  (split-append slash (codes "jobs") _ (refl, (refl, (refl, (refl, tt))))
                    ∙ ap (λ l. codes "jobs" ∷ l)
                        (split-append slash job_id _ j
                          ∙ ap (λ l. job_id ∷ l)
                              (split-append slash (decimal attempt) path
                                (decimal-Lacks attempt))))))

cons_parts : {A : Type 0} {x y : A} {xs ys : List A} → x ∷ xs ≡ y ∷ ys → (x ≡ y) × (xs ≡ ys)
cons_parts e = (grind (arith, e), grind (arith, e))

decimal_injective : (m n : ℕ) → decimal m ≡ decimal n → m ≡ n
decimal_injective m n e =
    sym (number_from-decimal m) ∙ (ap (number_from 0) e ∙ number_from-decimal n)

split_injective : (p q : List ℕ) → split slash p ≡ split slash q → p ≡ q
split_injective p q e = sym (join-split slash p) ∙ (ap (join slash) e ∙ join-split slash q)

-- Where no id has a slash, a key tells the run, the job, the attempt and the path: no two artifacts
-- share one.
pub job_key_tells :
    (r r' j j' : List ℕ) (a a' : ℕ) (p p' : List ℕ)
    → Lacks slash r
    → Lacks slash r'
    → Lacks slash j
    → Lacks slash j'
    → job_key r j a p ≡ job_key r' j' a' p'
    → (r ≡ r') × (j ≡ j') × (a ≡ a') × (p ≡ p')
job_key_tells r r' j j' a a' p p' hr hr' hj hj' e =
    let parts =
      sym (split-job_key r j a p hr hj)
      ∙ (ap (split slash) e ∙ split-job_key r' j' a' p' hr' hj') in
    let (run, x) = cons_parts (cons_parts parts).1 in
    let (job, y) = cons_parts (cons_parts x).1 in
    let (attempt, z) = cons_parts y in
    (run, job, decimal_injective a a' attempt, split_injective p p' z)
