-- ===== src/Base/Sorted.antt =====
-- Lists that are sorted by a key.
use Prim.Native.Nat.{ℕ, ◌≤◌, ◌<◌}
use mathlib.Core.Path.{◌≡◌, refl, ap, ◌∙◌}
use mathlib.Core.Logic.{inl, inr}
use mathlib.Core.Bool.{Bool, true, false}
use mathlib.Core.List.{List, [], ◌∷◌, ◌++◌}
use native.Mathlib.Omega.{arith}
use quarry.Base.Tests.{leb, Bool-cases}
use quarry.Base.Lists.{select, insert_on, sort_on, All}

module _ {A : Type 0} where
  pub select-append :
      (p : A → Bool) (xs ys : List A) → select p (xs ++ ys) ≡ select p xs ++ select p ys
  unfolding select
  select-append p [] ys = refl
  select-append p (x ∷ xs) ys = elim (Bool-cases (p x)) [
    | inl e ↦ rw (e, select) (ap (λ zs. x ∷ zs) (select-append p xs ys))
    | inr e ↦ rw (e, select) (select-append p xs ys)
  ]

  pub select_same :
      (p q : A → Bool) (xs : List A) → All (λ x. p x ≡ q x) xs → select p xs ≡ select q xs
  unfolding select
  select_same p q [] h = refl
  select_same p q (x ∷ xs) (h, hs) = elim (Bool-cases (q x)) [
    | inl e ↦ rw (h, e) (ap (λ ys. x ∷ ys) (select_same p q xs hs))
    | inr e ↦ rw (h, e) (select_same p q xs hs)
  ]

  pub select_none : (p : A → Bool) (xs : List A) → All (λ x. p x ≡ false) xs → select p xs ≡ []
  unfolding select
  select_none p [] h = refl
  select_none p (x ∷ xs) (h, hs) = rw h (select_none p xs hs)

module _ {A : Type 0} (key : A → ℕ) where
  -- A row that is not above any of the second part goes into the first.
  insert_on-append :
      (x : A) (xs ys : List A)
      → All (λ y. key x ≤ key y) ys
      → insert_on key x (xs ++ ys) ≡ insert_on key x xs ++ ys
  unfolding insert_on
  insert_on-append x [] [] h = refl
  insert_on-append x [] (y ∷ ys) (h, hs) =
      let e : leb (key x) (key y) ≡ true = ground (arith, h) in rw e refl
  insert_on-append x (z ∷ xs) ys h = elim (Bool-cases (leb (key x) (key z))) [
    | inl e ↦ rw (e, insert_on) refl
    | inr e ↦ rw (e, insert_on) (ap (λ zs. z ∷ zs) (insert_on-append x xs ys h))
  ]

  abbrev pub IsBelow : List A → A → Type 0
  IsBelow ys x = All (λ y. key x ≤ key y) ys

  pub sort_on-append :
      (xs ys : List A)
      → All (IsBelow (sort_on key ys)) xs
      → sort_on key (xs ++ ys) ≡ sort_on key xs ++ sort_on key ys
  unfolding sort_on
  sort_on-append [] ys h = refl
  sort_on-append (x ∷ xs) ys (h, hs) =
      ap (insert_on key x) (sort_on-append xs ys hs)
      ∙ insert_on-append x (sort_on key xs) (sort_on key ys) h

  -- The largest key of a sorted list is its last.
  abbrev pub last_key : ℕ → List A → ℕ
  last_key k [] = k
  last_key k (x ∷ xs) = last_key (key x) xs

  abbrev pub IsSortedFrom : ℕ → List A → Type 0
  IsSortedFrom k [] = Unit {0}
  IsSortedFrom k (x ∷ xs) = (k ≤ key x) × IsSortedFrom (key x) xs

  insert_on-IsSortedFrom :
      (k : ℕ) (x : A) (xs : List A)
      → k ≤ key x
      → IsSortedFrom k xs
      → IsSortedFrom k (insert_on key x xs)
  unfolding insert_on
  insert_on-IsSortedFrom k x [] h s = (h, tt)
  insert_on-IsSortedFrom k x (y ∷ ys) h (s, ss) = elim (Bool-cases (leb (key x) (key y))) [
    | inl e ↦ rw e (h, (ground (arith, e), ss))
    | inr e ↦ rw e (s, insert_on-IsSortedFrom (key y) x ys (ground (arith, e)) ss)
  ]

  pub sort_on-IsSortedFrom :
      (k : ℕ) (xs : List A) → All (λ x. k ≤ key x) xs → IsSortedFrom k (sort_on key xs)
  unfolding sort_on
  sort_on-IsSortedFrom k [] h = tt
  sort_on-IsSortedFrom k (x ∷ xs) (h, hs) =
      insert_on-IsSortedFrom k x (sort_on key xs) h (sort_on-IsSortedFrom k xs hs)

  pub least : (k : ℕ) (xs : List A) → IsSortedFrom k xs → k ≤ last_key k xs
  least k [] s = omega arith
  least k (x ∷ xs) (s, ss) = omega (arith, s, least (key x) xs ss)

  pub under_last : (k : ℕ) (xs : List A) → IsSortedFrom k xs → All (λ x. key x ≤ last_key k xs) xs
  under_last k [] s = tt
  under_last k (x ∷ xs) (s, ss) = (least (key x) xs ss, under_last (key x) xs ss)

  All-insert_on_back :
      (P : A → Type 0) (x : A) (xs : List A) → All P (insert_on key x xs) → P x × All P xs
  unfolding insert_on
  All-insert_on_back P x [] h = h
  All-insert_on_back P x (y ∷ ys) h = elim (Bool-cases (leb (key x) (key y))) [
    | inl e ↦ (rw (e, insert_on) at h)
    | inr e ↦
        let (p, q) = (rw (e, insert_on) at h) in
        let (r, s) = All-insert_on_back P x ys q in (r, (p, s))
  ]

  pub All-sort_on_back : (P : A → Type 0) (xs : List A) → All P (sort_on key xs) → All P xs
  unfolding sort_on
  All-sort_on_back P [] h = tt
  All-sort_on_back P (x ∷ xs) h =
      let (p, q) = All-insert_on_back P x (sort_on key xs) h in (p, All-sort_on_back P xs q)

  pub last_key_below : (k m : ℕ) (xs : List A) → k < m → All (λ x. key x < m) xs → last_key k xs < m
  last_key_below k m [] h t = h
  last_key_below k m (x ∷ xs) h (t, ts) = last_key_below (key x) m xs t ts
