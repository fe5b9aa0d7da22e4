-- ===== src/Pipeline/Degrees.antt =====
-- Kahn's algorithm: the degrees count the needs that are not out yet.
use quarry.Base.{
  ℕ, zero, suc, ◌+◌, String, List, [], ◌∷◌, ◌++◌, Bool, true, false, ◌≡◌, refl, ap, ◌∙◌, inl, inr,
  arith, Bool-cases, ◌==◌, String-eq, if◌then◌else◌, select, put, get-put, pos, decrement, is_zero,
}
use quarry.Pipeline.Topo.{Degrees, degree, release}
use quarry.Pipeline.Counts.{
  count, count-nil, count-cons, count-cons_same, count-cons_other, count-append, same_name, add_suc,
}

lowered :
    (d : String) (ds : List String) (m : Degrees) (x : String) (a : ℕ)
    → degree m x ≡ pos (a + count (d ∷ ds) x)
    → (if d == x then decrement (degree m d) else degree m x) ≡ pos (a + count ds x)
lowered d ds m x a e = elim (Bool-cases (d == x)) [
  | inl t ↦ rw t (
      ap (λ y. decrement (degree m y)) (same_name d x t)
      ∙ ap decrement (
          e
          ∙ ap (λ n. pos (a + n)) (count-cons d ds x ∙ rw t refl)
          ∙ ap pos (add_suc a (count ds x))))
  | inr t ↦ rw t (e ∙ ap (λ n. pos (a + n)) (count-cons d ds x ∙ rw t refl))
]

degree-put :
    (d : String) (ds : List String) (m : Degrees) (x : String) (a : ℕ)
    → degree m x ≡ pos (a + count (d ∷ ds) x)
    → degree (put m d (decrement (degree m d))) x ≡ pos (a + count ds x)
degree-put d ds m x a e = get-put (pos 0) m d (decrement (degree m d)) x ∙ lowered d ds m x a e

-- The loop over ds lowers the degree of each name once for each time that it stands there.
pub degree-release :
    (ds : List String) (m : Degrees) (ready : List String) (x : String) (a : ℕ)
    → degree m x ≡ pos (a + count ds x)
    → degree (release ds m ready).0 x ≡ pos a
unfolding release select
degree-release [] m ready x a e = ground (arith, e)
degree-release (d ∷ ds) m ready x a e = degree-release ds _ _ x a (degree-put d ds m x a e)

-- How often a name becomes ready whose degree sinks from a + n to a.
abbrev pub arrivals : ℕ → ℕ → ℕ
arrivals (suc a) n = 0
arrivals zero zero = 0
arrivals zero (suc n) = 1

abbrev once_at : ℕ → ℕ
once_at n = if is_zero (pos n) then 1 else 0

arrivals-suc : (a n k : ℕ) → k ≡ a + n → once_at k + arrivals a n ≡ arrivals a (suc n)
arrivals-suc (suc a) n zero e = absurd (omega (arith, e))
arrivals-suc (suc a) n (suc k) e = omega arith
arrivals-suc zero zero zero e = omega arith
arrivals-suc zero zero (suc k) e = absurd (omega (arith, e))
arrivals-suc zero (suc n) zero e = absurd (omega (arith, e))
arrivals-suc zero (suc n) (suc k) e = omega arith

abbrev grown : Bool → List String → String → List String
grown b ready d = if b then ready ++ d ∷ [] else ready

count-grown_same :
    (b : Bool) (ready : List String) (d x : String)
    → (d == x) ≡ true
    → count (grown b ready d) x ≡ count ready x + (if b then 1 else 0)
count-grown_same true ready d x t =
    omega (arith, count-append ready (d ∷ []) x, count-cons_same d [] x t, count-nil x)
count-grown_same false ready d x t = omega arith

count-grown_other :
    (b : Bool) (ready : List String) (d x : String)
    → (d == x) ≡ false
    → count (grown b ready d) x ≡ count ready x
count-grown_other true ready d x t =
    omega (arith, count-append ready (d ∷ []) x, count-cons_other d [] x t, count-nil x)
count-grown_other false ready d x t = refl

arrival :
    (d : String) (ds : List String) (m : Degrees) (ready : List String) (x : String) (a : ℕ)
    → degree m x ≡ pos (a + count ds x)
    → count (grown (is_zero (degree m d)) ready d) x + arrivals a (count ds x)
      ≡ count ready x + arrivals a (count (d ∷ ds) x)
arrival d ds m ready x a e = elim (Bool-cases (d == x)) [
  | inl t ↦
      let same : is_zero (degree m d) ≡ is_zero (pos (a + count ds x)) =
        ap (λ y. is_zero (degree m y)) (same_name d x t) ∙ ap is_zero e in
      let now : (if is_zero (degree m d) then 1 else 0) ≡ once_at (a + count ds x) =
        ap (λ b. if b then 1 else 0) same in
      omega (
        arith,
        count-grown_same (is_zero (degree m d)) ready d x t,
        now,
        ap (arrivals a) (count-cons_same d ds x t),
        arrivals-suc a (count ds x) (a + count ds x) refl,
      )
  | inr t ↦ omega (
    arith,
    count-grown_other (is_zero (degree m d)) ready d x t,
    ap (arrivals a) (count-cons_other d ds x t),
  )
]

-- It makes a name ready once, when its degree comes to 0.
pub count-release :
    (ds : List String) (m : Degrees) (ready : List String) (x : String) (a : ℕ)
    → degree m x ≡ pos (a + count ds x)
    → count (release ds m ready).1 x ≡ count ready x + arrivals a (count ds x)
unfolding release select
count-release [] m ready x zero e = omega arith
count-release [] m ready x (suc a) e = omega arith
count-release (d ∷ ds) m ready x a e =
    let m' = put m d (decrement (degree m d)) in
    let f = degree-put d ds m x a e in count-release ds m' _ x a f ∙ arrival d ds m' ready x a f
