-- ===== src/Life/Laws.antt =====
-- What holds of every job, whatever the requests.
use quarry.Base.{
  true, Bool, String, List, [], ◌∷◌, ◌++◌, some, ◌≡◌, ◌≢◌, refl, sym, subst, arith, All, All-map,
  All-append, All-update, Bool, Bool-cases, inl, inr, find, update, ◌==◌, String-eq,
}
use quarry.Store.Types.{Job}
use quarry.Store.Monad.{Store}
use quarry.Life.Move.{
  Move, Moves, stay, then, IsFinal, IsSound, Move-IsSound, Moves-IsSame, Moves-final,
}
use quarry.Life.Stable.{IsStable, Both, IsStable-Both}
use quarry.Life.Unique.{IsUnique, IsUnique-stable, ids, Distinct}
use quarry.Life.Quiet.{Found}
use quarry.Life.Submitting.{IsNew, IsExtendable}
use quarry.Life.History.{Request, run, run-Keeps}

Distinct-snoc :
    (xs : List String) (y : String) → Distinct xs → All (λ x. x ≢ y) xs → Distinct (xs ++ y ∷ [])
Distinct-snoc [] y d n = (tt, tt)
Distinct-snoc (x ∷ xs) y d n =
    (All-append _ xs (y ∷ []) d.0 ((λ e. n.0 (sym e)), tt), Distinct-snoc xs y d.1 n.1)

pub ids-append : (js ks : List Job) → ids (js ++ ks) ≡ ids js ++ ids ks
ids-append [] ks = refl
ids-append (j ∷ js) ks = cc (ids-append js ks)

pub All-ids : (P : String → Type 0) (js : List Job) → All (λ j. P j.id) js → All P (ids js)
All-ids P [] h = tt
All-ids P (j ∷ js) h = (h.0, All-ids P js h.1)

pub IsUnique-extendable : IsExtendable IsUnique
IsUnique-extendable = record {
  add = λ s j n fresh u.
      rw (ids-append s.jobs (j ∷ [])) (Distinct-snoc (ids s.jobs) j.id u (All-ids _ s.jobs fresh));
  link = λ s d u. u;
}

-- Distinct job ids stay distinct, whatever the requests.
pub run-IsUnique : (qs : List Request) (s : Store) → IsUnique s → IsUnique (run qs s)
run-IsUnique = run-Keeps IsUnique-stable IsUnique-extendable (λ s u. u)

abbrev pub AllSound : Store → Type 0
AllSound s = All IsSound s.jobs

AllSound-stable : IsStable Move AllSound
AllSound-stable = record {
  quiet = λ s t e g h. rw e h;
  closed = λ p f s g h.
      All-update IsSound p f s.jobs (All-map _ _ s.jobs (λ j m v t. Move-IsSound (m t) v) g) h;
}

IsNew-IsSound : (j : Job) → IsNew j → IsSound j
IsNew-IsSound j n = ground arith

pub IsExtendable-Both :
    {P Q : Store → Type 0} → IsExtendable P → IsExtendable Q → IsExtendable (Both P Q)
IsExtendable-Both x y = record {
  add = λ s j n fresh (a, b). (x.add s j n fresh a, y.add s j n fresh b);
  link = λ s d (a, b). (x.link s d a, y.link s d b);
}

AllSound-extendable : IsExtendable AllSound
AllSound-extendable = record {
  add = λ s j n fresh h. All-append _ s.jobs (j ∷ []) h (IsNew-IsSound j n, tt);
  link = λ s d h. h;
}

-- Where job ids are distinct and every job row is sound, every job row is sound after any requests.
pub run-AllSound : (qs : List Request) (s : Store) → IsUnique s → AllSound s → AllSound (run qs s)
run-AllSound qs s u h =
    (run-Keeps (IsStable-Both IsUnique-stable AllSound-stable)
      (IsExtendable-Both IsUnique-extendable AllSound-extendable) (λ t p. p.0) qs s (u, h)).1

-- Each row of an older table stands at its place in the newer one, some moves further on.
abbrev Rows : List Job → List Job → Type 0
Rows [] ks = Unit {0}
Rows (j ∷ js) [] = ⊥
Rows (j ∷ js) (k ∷ ks) = Moves j k × Rows js ks

Rows-refl : (js : List Job) → Rows js js
Rows-refl [] = tt
Rows-refl (j ∷ js) = (stay, Rows-refl js)

Rows-update :
    (s : Store) (p : Job → Bool) (f : Job → Job) (js ks : List Job)
    → All (λ k. p k ≡ true → Move s k (f k)) ks
    → Rows js ks
    → Rows js (update p f ks)
unfolding update
Rows-update s p f [] ks g h = tt
Rows-update s p f (j ∷ js) [] g h = elim h [ ]
Rows-update s p f (j ∷ js) (k ∷ ks) g h = elim (Bool-cases (p k)) [
  | inl e ↦ rw e (then h.0 (g.0 e), Rows-update s p f js ks g.1 h.1)
  | inr e ↦ rw e (h.0, Rows-update s p f js ks g.1 h.1)
]

Rows-append : (js ks ls : List Job) → Rows js ks → Rows js (ks ++ ls)
Rows-append [] ks ls h = tt
Rows-append (j ∷ js) [] ls h = elim h [ ]
Rows-append (j ∷ js) (k ∷ ks) ls h = (h.0, Rows-append js ks ls h.1)

Rows-find :
    (id : String) (js ks : List Job) (j : Job)
    → Rows js ks
    → find (λ (l : Job). l.id == id) js ≡ some j
    → (k : Job) × (find (λ (l : Job). l.id == id) ks ≡ some k) × Moves j k
unfolding find
Rows-find id [] ks j h e = cc
Rows-find id (x ∷ js) [] j h e = elim h [ ]
Rows-find id (x ∷ js) (y ∷ ks) j h e = elim (Bool-cases (x.id == id)) [
  | inl t ↦
      let same : x ≡ j = ground (arith, e, t) in
      (y, ground (arith, t, (Moves-IsSame h.0).same_id), subst (λ l. Moves l y) same h.0)
  | inr t ↦
      let (k, f, m) = Rows-find id js ks j h.1 (rw (t, find) at e) in
      (k, ground (arith, t, f, (Moves-IsSame h.0).same_id), m)
]

module _ (old : List Job) where
  abbrev After : Store → Type 0
  After s = Rows old s.jobs

  After-stable : IsStable Move After
  After-stable = record {
    quiet = λ s t e g h. rw e h;
    closed = λ p f s g h. Rows-update s p f old s.jobs g h;
  }

  After-extendable : IsExtendable After
  After-extendable = record {
    add = λ s j n fresh h. Rows-append old s.jobs (j ∷ []) h;
    link = λ s d h. h;
  }

pub run-Moves :
    (qs : List Request) (s : Store) (id : String) (j : Job)
    → IsUnique s
    → Found id j s
    → (k : Job) × Found id k (run qs s) × Moves j k
run-Moves qs s id j u e =
    Rows-find id s.jobs (run qs s).jobs j
      (run-Keeps (IsStable-Both IsUnique-stable (After-stable s.jobs))
        (IsExtendable-Both IsUnique-extendable (After-extendable s.jobs)) (λ t p. p.0) qs s
        (u, Rows-refl s.jobs)).1
      e

-- The first verdict stands: where job ids are distinct, once a job is succeeded, failed, cancelled or
-- skipped, no requests change its row in any way.
pub run-final :
    (qs : List Request) (s : Store) (id : String) (j : Job)
    → IsUnique s
    → Found id j s
    → IsFinal j.state
    → Found id j (run qs s)
run-final qs s id j u e f =
    let (k, found, m) = run-Moves qs s id j u e in
    subst (λ l. Found id l (run qs s)) (Moves-final m f) found
