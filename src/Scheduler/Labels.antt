-- ===== src/Scheduler/Labels.antt =====
-- labelsSubset of internal/scheduler/scheduler.go against the labels as relations.
use quarry.Base.{
  String, [], ◌∷◌, true, ◌≡◌, ◌≢◌, refl, sym, subst, ◌⊎◌, inl, inr, ◌↔◌, All, String-eq, ◌==◌,
  arith, Bool-cases, ◌∙◌,
}
use quarry.Store.Types.{Labels}
use quarry.Scheduler.Types.{label_at, labels_subset}

-- The first entry of the key has the value.
pub data Carries : Labels → String → String → Type 0 where
  here : (have : Labels) (k v : String) → Carries ((k, v) ∷ have) k v
  there :
      (have : Labels) (j w k v : String) → j ≢ k → Carries have k v → Carries ((j, w) ∷ have) k v

-- No entry has the key.
abbrev pub Lacks : Labels → String → Type 0
Lacks have k = All (λ (e : String × String). e.0 ≢ k) have

abbrev pub Accepts : Labels → String × String → Type 0
Accepts have (k, v) = Carries have k v ⊎ (Lacks have k × (v ≡ ""))

Accepts-step :
    (have : Labels) (j w k v : String)
    → j ≢ k
    → Accepts have (k, v)
    → Accepts ((j, w) ∷ have) (k, v)
Accepts-step have j w k v n (inl c) = inl (there have j w k v n c)
Accepts-step have j w k v n (inr (l, e)) = inr ((n, l), e)

label_at-Accepts : (have : Labels) (k : String) → Accepts have (k, label_at have k)
unfolding label_at
label_at-Accepts [] k = inr (tt, refl)
label_at-Accepts ((j, w) ∷ have) k = elim (Bool-cases (j == k)) [
  | inl e ↦
      rw e (inl (subst (λ x. Carries ((j, w) ∷ have) x w) (ground (arith, e)) (here have j w)))
  | inr e ↦ rw e (
      Accepts-step have j w k (label_at have k) (λ d. ground (arith, e, d))
        (label_at-Accepts have k))
]

Carries-label_at : {have : Labels} {k v : String} → Carries have k v → label_at have k ≡ v
unfolding label_at
Carries-label_at (here have k v) = ground arith
Carries-label_at (there have j w k v n c) = ground (arith, n, Carries-label_at c)

Lacks-label_at : (have : Labels) (k : String) → Lacks have k → label_at have k ≡ ""
unfolding label_at
Lacks-label_at [] k l = refl
Lacks-label_at ((j, w) ∷ have) k (n, l) = ground (arith, n, Lacks-label_at have k l)

Accepts-label_at : (have : Labels) (k v : String) → Accepts have (k, v) → label_at have k ≡ v
Accepts-label_at have k v (inl c) = Carries-label_at c
Accepts-label_at have k v (inr (l, e)) = Lacks-label_at have k l ∙ sym e

labels_subset-accepted :
    (need have : Labels) → labels_subset need have ≡ true → All (Accepts have) need
unfolding labels_subset
labels_subset-accepted [] have e = tt
labels_subset-accepted ((k, v) ∷ need) have e = (
  subst (λ x. Accepts have (k, x)) (ground (arith, e)) (label_at-Accepts have k),
  labels_subset-accepted need have (ground (arith, e)),
)

accepted-labels_subset :
    (need have : Labels) → All (Accepts have) need → labels_subset need have ≡ true
unfolding labels_subset
accepted-labels_subset [] have h = refl
accepted-labels_subset ((k, v) ∷ need) have (a, h) =
    ground (arith, Accepts-label_at have k v a, accepted-labels_subset need have h)

-- A runner's labels satisfy a job's exactly when each required label is carried with its value, or has
-- the empty value and is not carried at all.
pub labels_subset-Accepts :
    (need have : Labels) → (labels_subset need have ≡ true) ↔ All (Accepts have) need
labels_subset-Accepts need have =
    (labels_subset-accepted need have, accepted-labels_subset need have)
