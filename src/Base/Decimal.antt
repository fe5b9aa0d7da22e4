-- ===== src/Base/Decimal.antt =====
-- A number as its decimal digits, as fmt's %d and strconv.Itoa write it.
use Prim.Native.Nat.{ℕ, zero, suc, ◌-◌, ◌+◌, ◌*◌, ◌/◌, ◌%◌, ◌≤◌}
use mathlib.Core.Path.{◌≡◌, refl}
use mathlib.Core.Logic.{inl, inr}
use mathlib.Core.List.{List, [], ◌∷◌, ◌++◌}
use native.Mathlib.Omega.{arith}
use quarry.Base.Tests.{if◌then◌else◌, ltb, Bool-cases}

-- The fuel n is enough for the digits of n: each division by 10 makes n smaller.
unfoldable pub digits : ℕ → ℕ → List ℕ
digits zero n = (48 + n % 10) ∷ []
digits (suc fuel) n =
    let more = digits fuel (n / 10) in (if ltb n 10 then [] else more) ++ (48 + n % 10) ∷ []

unfoldable pub decimal : ℕ → List ℕ
unfolding digits
decimal n = digits n n

-- Reading digits from the left.
unfoldable pub number_from : ℕ → List ℕ → ℕ
number_from acc [] = acc
number_from acc (d ∷ ds) = number_from (acc * 10 + (d - 48)) ds

number_from-append :
    (acc : ℕ) (xs : List ℕ) (d : ℕ)
    → number_from acc (xs ++ d ∷ []) ≡ number_from acc xs * 10 + (d - 48)
unfolding number_from
number_from-append acc [] d = refl
number_from-append acc (x ∷ xs) d = number_from-append (acc * 10 + (x - 48)) xs d

number_from-digits : (fuel n : ℕ) → n ≤ fuel → number_from 0 (digits fuel n) ≡ n
unfolding number_from digits
number_from-digits zero n h = omega (arith, h)
number_from-digits (suc fuel) n h = elim (Bool-cases (ltb n 10)) [
  | inl e ↦ rw e (ground (arith, e))
  | inr e ↦
      rw (e, number_from-append 0 (digits fuel (n / 10)) (48 + n % 10))
        (ground (arith, e, h, number_from-digits fuel (n / 10)))
]

-- Reading what is written gives the number back.
pub number_from-decimal : (n : ℕ) → number_from 0 (decimal n) ≡ n
unfolding decimal
number_from-decimal n = number_from-digits n n (omega arith)
