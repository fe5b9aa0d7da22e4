-- ===== src/Store/Rules.antt =====
-- Rules for what an action keeps of the store, one for each way to build an action.
use quarry.Base.{ap, ◌≡◌, refl, Bool, true, false, if◌then◌else◌}
use quarry.Store.Monad.{
  Store, Error, Outcome, ok, err, M, ◌>>=◌, return, throw, now, guard, tx, final,
}

abbrev pub Holds : {A : Type 0} → (A → Store → Type 0) → Outcome A → Type 0
Holds Q (ok a s) = Q a s
Holds Q (err e s) = Unit {0}

-- From a store with P, the action fails or ends in a result and a store with Q.
pub record Ensures {A : Type 0} (P : Store → Type 0) (m : M A) (Q : A → Store → Type 0)
    : Type 0 where
  pub at : (s : Store) → P s → Holds Q (m s)

-- A success keeps P.
abbrev pub Keeps : {A : Type 0} → (Store → Type 0) → M A → Type 0
Keeps P m = Ensures P m (λ _. P)

-- What a reading of the clock does not change.
pub record IsTimeless (P : Store → Type 0) : Type 0 where
  pub at : (s : Store) (c : _) → P s → P (record s { clock = c })

module _ {A B : Type 0} {R : B → Store → Type 0} where
  Holds-bind :
      (Q : A → Store → Type 0) (f : A → M B) (o : Outcome A)
      → ((a : A) → Ensures (Q a) (f a) R)
      → Holds Q o
      → Holds R (elim o [ ok a s' ↦ f a s' | err e s' ↦ err e s' ])
  Holds-bind Q f (ok a s) k h = (k a).at s h
  Holds-bind Q f (err e s) k h = tt

  pub Ensures-bind :
      {P : Store → Type 0} (Q : A → Store → Type 0) (m : M A) (f : A → M B)
      → Ensures P m Q
      → ((a : A) → Ensures (Q a) (f a) R)
      → Ensures P (m >>= f) R
  unfolding ◌>>=◌
  Ensures-bind Q m f h k = record { at = λ s p. Holds-bind Q f (m s) k (h.at s p) }

module _ {A B : Type 0} {P : Store → Type 0} where
  pub Keeps-bind :
      (m : M A) (f : A → M B) → Keeps P m → ((a : A) → Keeps P (f a)) → Keeps P (m >>= f)
  Keeps-bind m f h k = Ensures-bind (λ _. P) m f h k

module _ {A : Type 0} {P : Store → Type 0} where
  pub Keeps-return : (a : A) → Keeps P (return a)
  unfolding return
  Keeps-return a = record { at = λ s p. p }

  pub Keeps-throw : (e : Error) → Keeps P (throw {A = A} e)
  unfolding throw
  Keeps-throw e = record { at = λ s p. tt }

  pub Keeps-if : (b : Bool) (m k : M A) → Keeps P m → Keeps P k → Keeps P (if b then m else k)
  Keeps-if true m k h i = h
  Keeps-if false m k h i = i

  pub Holds-tx :
      (s : Store) (o : Outcome A)
      → IsTimeless P
      → P s
      → Holds (λ _. P) o
      → P (final (elim o [ ok a s' ↦ ok a s' | err e s' ↦ err e (record s { clock = s'.clock }) ]))
  Holds-tx s (ok a s') t p h = h
  Holds-tx s (err e s') t p h = t.at s s'.clock p

  -- A transaction keeps P whether it commits or rolls back.
  tx-Keeps : (m : M A) → IsTimeless P → Keeps P m → (s : Store) → P s → P (final (tx m s))
  unfolding tx
  tx-Keeps m t k s p = Holds-tx s (m s) t p (k.at s p)

module _ {A : Type 0} where
  pub Holds-map :
      (Q Q' : A → Store → Type 0) (o : Outcome A)
      → ((a : A) (s : Store) → Q a s → Q' a s)
      → Holds Q o
      → Holds Q' o
  Holds-map Q Q' (ok a s) g q = g a s q
  Holds-map Q Q' (err e s) g q = tt

  pub Ensures-weaken :
      {Q Q' : A → Store → Type 0} {P P' : Store → Type 0} (m : M A)
      → ((s : Store) → P' s → P s)
      → ((a : A) (s : Store) → Q a s → Q' a s)
      → Ensures P m Q
      → Ensures P' m Q'
  Ensures-weaken {Q} {Q'} m f g h = record { at = λ s p. Holds-map Q Q' (m s) g (h.at s (f s p)) }

module _ {P : Store → Type 0} where
  pub Keeps-now : IsTimeless P → Keeps P now
  unfolding now
  Keeps-now t = record { at = λ s p. t.at s _ p }

  pub Keeps-guard : (b : Bool) (e : Error) → Keeps P (guard b e)
  unfolding guard
  Keeps-guard b e = Keeps-if b _ _ (Keeps-return tt) (Keeps-throw e)

module _ {A : Type 0} where
  pub Ensures-return : (Q : A → Store → Type 0) (a : A) → Ensures (Q a) (return a) Q
  unfolding return
  Ensures-return Q a = record { at = λ s q. q }

  pub Ensures-throw :
      (P : Store → Type 0) (Q : A → Store → Type 0) (e : Error) → Ensures P (throw e) Q
  unfolding throw
  Ensures-throw P Q e = record { at = λ s q. tt }

  pub Ensures-if :
      {P : Store → Type 0} {Q : A → Store → Type 0} (b : Bool) (m k : M A)
      → (b ≡ true → Ensures P m Q)
      → (b ≡ false → Ensures P k Q)
      → Ensures P (if b then m else k) Q
  Ensures-if true m k h i = h refl
  Ensures-if false m k h i = i refl

module _ {A : Type 0} where
  Holds-commit :
      (Q : A → Store → Type 0) (o : Outcome A) (s : Store)
      → Holds Q o
      → Holds Q (elim o [ ok a t ↦ ok a t | err e t ↦ err e (record s { clock = t.clock }) ])
  Holds-commit Q (ok a t) s h = h
  Holds-commit Q (err e t) s h = tt

  pub Ensures-tx :
      {P : Store → Type 0} {Q : A → Store → Type 0} (m : M A) → Ensures P m Q → Ensures P (tx m) Q
  unfolding tx
  Ensures-tx {Q = Q} m h = record { at = λ s p. Holds-commit Q (m s) s (h.at s p) }

-- An action keeps P whether it succeeds or fails.
pub record Always {A : Type 0} (P : Store → Type 0) (m : M A) : Type 0 where
  pub at : (s : Store) → P s → P (final (m s))

module _ {A B : Type 0} {P : Store → Type 0} where
  Always-bind-of :
      (f : A → M B) (o : Outcome A)
      → ((a : A) → Always P (f a))
      → P (final o)
      → P (final {A = B} (elim o [ ok a s' ↦ f a s' | err e s' ↦ err e s' ]))
  Always-bind-of f (ok a s) k h = (k a).at s h
  Always-bind-of f (err e s) k h = h

  pub Always-bind :
      (m : M A) (f : A → M B) → Always P m → ((a : A) → Always P (f a)) → Always P (m >>= f)
  unfolding ◌>>=◌
  Always-bind m f h k = record { at = λ s p. Always-bind-of f (m s) k (h.at s p) }

module _ {A : Type 0} {P : Store → Type 0} where
  pub Always-return : (a : A) → Always P (return a)
  unfolding return
  Always-return a = record { at = λ s p. p }

  pub Always-throw : (e : Error) → Always P (throw {A = A} e)
  unfolding throw
  Always-throw e = record { at = λ s p. p }

  pub Always-tx : (m : M A) → IsTimeless P → Keeps P m → Always P (tx m)
  Always-tx m t k = record { at = tx-Keeps m t k }

pub Always-guard : {P : Store → Type 0} (b : Bool) (e : Error) → Always P (guard b e)
unfolding guard
Always-guard true e = Always-return tt
Always-guard false e = Always-throw e

-- The first action of a chain succeeds.
pub bind-ok :
    {A B : Type 0} {a : A} {u : Store} (m : M A) (f : A → M B) (t : Store)
    → m t ≡ ok a u
    → (m >>= f) t ≡ f a u
unfolding ◌>>=◌
bind-ok m f t e = ap (λ o. elim o [ ok a s' ↦ f a s' | err e s' ↦ err e s' ]) e

pub ruleset keeps_rules = (Keeps-bind, Keeps-return, Keeps-throw, Keeps-if, Keeps-now, Keeps-guard)
