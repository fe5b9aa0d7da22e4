-- ===== src/Store/Success.antt =====
-- Rules for the success of an action.
use quarry.Base.{◌≡◌, refl, true, Bool}
use quarry.Store.Monad.{Store, Error, Outcome, ok, err, M, ◌>>=◌, return, guard}
use quarry.Store.Rules.{Holds, Ensures}

abbrev pub IsOk : {A : Type 0} → Outcome A → Type 0
IsOk (ok a s) = Unit {0}
IsOk (err e s) = ⊥

-- From a store with P, the action does not fail.
pub record Succeeds {A : Type 0} (P : Store → Type 0) (m : M A) : Type 0 where
  pub at : (s : Store) → P s → IsOk (m s)

module _ {A B : Type 0} where
  IsOk-bind :
      (Q : A → Store → Type 0) (f : A → M B) (o : Outcome A)
      → ((a : A) → Succeeds (Q a) (f a))
      → Holds Q o
      → IsOk o
      → IsOk (elim o [ ok a s' ↦ f a s' | err e s' ↦ err e s' ])
  IsOk-bind Q f (ok a s) k h i = (k a).at s h
  IsOk-bind Q f (err e s) k h i = i

  pub Succeeds-bind :
      {P : Store → Type 0} (Q : A → Store → Type 0) (m : M A) (f : A → M B)
      → Succeeds P m
      → Ensures P m Q
      → ((a : A) → Succeeds (Q a) (f a))
      → Succeeds P (m >>= f)
  unfolding ◌>>=◌
  Succeeds-bind Q m f i h k = record { at = λ s p. IsOk-bind Q f (m s) k (h.at s p) (i.at s p) }

module _ {A : Type 0} where
  pub Succeeds-return : {P : Store → Type 0} (a : A) → Succeeds P (return a)
  unfolding return
  Succeeds-return a = record { at = λ s p. tt }

  Holds-any : (o : Outcome A) → Holds (λ _ _. Unit {0}) o
  Holds-any (ok a s) = tt
  Holds-any (err e s) = tt

  pub Ensures-any : (P : Store → Type 0) (m : M A) → Ensures P m (λ _ _. Unit {0})
  Ensures-any P m = record { at = λ s p. Holds-any (m s) }

  Holds-both :
      (Q R : A → Store → Type 0) (o : Outcome A)
      → Holds Q o
      → Holds R o
      → Holds (λ a s. Q a s × R a s) o
  Holds-both Q R (ok a s) q r = (q, r)
  Holds-both Q R (err e s) q r = tt

  pub Ensures-both :
      {P : Store → Type 0} {Q R : A → Store → Type 0} (m : M A)
      → Ensures P m Q
      → Ensures P m R
      → Ensures P m (λ a s. Q a s × R a s)
  Ensures-both {P} {Q} {R} m q r = record { at = λ s p. Holds-both Q R (m s) (q.at s p) (r.at s p) }

  pub IsOk-result : (o : Outcome A) → IsOk o → (a : A) × (s : Store) × (o ≡ ok a s)
  IsOk-result (ok a s) i = (a, s, refl)
  IsOk-result (err e s) i = elim i [ ]

pub Succeeds-guard : {P : Store → Type 0} (b : Bool) (e : Error) → b ≡ true → Succeeds P (guard b e)
unfolding guard return
Succeeds-guard b e t = record { at = λ s p. rw t tt }
