-- ===== src/Pipeline/Counts.antt =====
-- Lists of names, compared by how often each name stands in them.
use quarry.Base.{
  ℕ, suc, ◌+◌, ◌≤◌, ◌<◌, String, List, [], ◌∷◌, ◌++◌, true, false, ◌≡◌, refl, sym, ap, ◌∙◌, subst,
  inl, inr, arith, Bool-cases, ◌==◌, String-eq, if◌then◌else◌, length, select, insert_on, sort_on,
  leb,
}

-- How often a name stands in a list.
abbrev pub count : List String → String → ℕ
count xs x = length (select (λ (y : String). y == x) xs)

pub count-nil : (x : String) → count [] x ≡ 0
unfolding select
count-nil x = refl

pub count-cons :
    (d : String) (ds : List String) (x : String)
    → count (d ∷ ds) x ≡ (if d == x then suc (count ds x) else count ds x)
unfolding select
count-cons d ds x = ground arith

pub count-append : (xs ys : List String) (x : String) → count (xs ++ ys) x ≡ count xs x + count ys x
unfolding select
count-append [] ys x = omega arith
count-append (y ∷ xs) ys x = ground (arith, count-append xs ys x)

pub same_name : (d x : String) → (d == x) ≡ true → d ≡ x
same_name d x t = ground (arith, t)

pub add_suc : (a n : ℕ) → a + suc n ≡ suc (a + n)
add_suc a n = omega arith

pub count-cons_same :
    (d : String) (ds : List String) (x : String)
    → (d == x) ≡ true
    → count (d ∷ ds) x ≡ suc (count ds x)
count-cons_same d ds x t =
    count-cons d ds x ∙ ap (λ b. if b then suc (count ds x) else count ds x) t

pub count-cons_other :
    (d : String) (ds : List String) (x : String) → (d == x) ≡ false → count (d ∷ ds) x ≡ count ds x
count-cons_other d ds x t =
    count-cons d ds x ∙ ap (λ b. if b then suc (count ds x) else count ds x) t

-- Whether two names are the same, as a number.
abbrev pub same : String → String → ℕ
same d x = if d == x then 1 else 0

pub count-cons_sum :
    (d : String) (ds : List String) (x : String) → count (d ∷ ds) x ≡ same d x + count ds x
count-cons_sum d ds x = elim (Bool-cases (d == x)) [
  | inl t ↦ omega (arith, count-cons_same d ds x t, ap {B = ℕ} (λ b. if b then 1 else 0) t)
  | inr t ↦ omega (arith, count-cons_other d ds x t, ap {B = ℕ} (λ b. if b then 1 else 0) t)
]

pub same_self : (x : String) → same x x ≡ 1
same_self x = ground arith

count-insert_on :
    (key : String → ℕ) (d : String) (xs : List String) (x : String)
    → count (insert_on key d xs) x ≡ count (d ∷ xs) x
unfolding insert_on
count-insert_on key d [] x = refl
count-insert_on key d (y ∷ ys) x = elim (Bool-cases (leb (key d) (key y))) [
  | inl e ↦ rw e refl
  | inr e ↦ rw e (
      omega (
        arith,
        count-cons_sum y (insert_on key d ys) x,
        count-insert_on key d ys x,
        count-cons_sum d ys x,
        count-cons_sum d (y ∷ ys) x,
        count-cons_sum y ys x,
      ))
]

-- Sorting keeps each name as often as it is there.
pub count-sort_on :
    (key : String → ℕ) (xs : List String) (x : String) → count (sort_on key xs) x ≡ count xs x
unfolding sort_on
count-sort_on key [] x = refl
count-sort_on key (y ∷ ys) x =
    count-insert_on key y (sort_on key ys) x
    ∙ (count-cons y (sort_on key ys) x
        ∙ (ap (λ n. if y == x then suc n else n) (count-sort_on key ys x)
            ∙ sym (count-cons y ys x)))

-- The list without the first place of a name.
unfoldable remove : String → List String → List String
remove d [] = []
remove d (y ∷ ys) = let rest = remove d ys in if y == d then ys else y ∷ rest

length-remove :
    (d : String) (ys : List String) → 1 ≤ count ys d → suc (length (remove d ys)) ≡ length ys
unfolding remove
length-remove d [] h = absurd (omega (arith, h, count-nil d))
length-remove d (y ∷ ys) h = elim (Bool-cases (y == d)) [
  | inl e ↦ rw e refl
  | inr e ↦ rw e (ap suc (length-remove d ys (omega (arith, h, count-cons_other y ys d e))))
]

count-remove : (d : String) (ys : List String) (x : String) → count ys x ≤ count (d ∷ remove d ys) x
unfolding remove
count-remove d [] x = omega (arith, count-nil x)
count-remove d (y ∷ ys) x = elim (Bool-cases (y == d)) [
  | inl e ↦ rw e (
      omega
        (arith, count-cons_sum y ys x, count-cons_sum d ys x, ap (λ z. same z x) (same_name y d e)))
  | inr e ↦ rw e (
      omega (
        arith,
        count-cons_sum y ys x,
        count-cons_sum d (y ∷ remove d ys) x,
        count-cons_sum y (remove d ys) x,
        count-cons_sum d (remove d ys) x,
        count-remove d ys x,
      ))
]

-- A list that has no name more often than another is not longer.
pub length_le :
    (xs ys : List String) → ((x : String) → count xs x ≤ count ys x) → length xs ≤ length ys
length_le [] ys h = omega arith
length_le (x ∷ xs) ys h =
    let here : 1 ≤ count ys x = omega (arith, h x, count-cons_sum x xs x, same_self x) in
    omega (
      arith,
      length-remove x ys here,
      length_le xs (remove x ys) (λ z. omega (
        arith,
        h z,
        count-cons_sum x xs z,
        count-remove x ys z,
        count-cons_sum x (remove x ys) z,
      )),
    )

-- When it is as long, it has each name as often.
pub count_same :
    (xs ys : List String) (x : String)
    → ((z : String) → count xs z ≤ count ys z)
    → length xs ≡ length ys
    → count xs x ≡ count ys x
count_same xs ys x h e = elim (Bool-cases (leb (count ys x) (count xs x))) [
  | inl t ↦ ground (arith, t, h x)
  | inr t ↦ absurd (omega (arith, e, length_le (x ∷ xs) ys (more (ground (arith, t)))))
]
  where
    more : count xs x < count ys x → (z : String) → count (x ∷ xs) z ≤ count ys z
    more l z = elim (Bool-cases (x == z)) [
      | inl t ↦ omega (
        arith,
        count-cons_same x xs z t,
        subst (λ y. count xs y < count ys y) (same_name x z t) l,
      )
      | inr t ↦ omega (arith, count-cons_other x xs z t, h z)
    ]
