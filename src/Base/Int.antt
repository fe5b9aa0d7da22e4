-- ===== src/Base/Int.antt =====
-- Signed numbers: `negsuc n` is -(n + 1).
use Prim.Native.Nat.{ℕ}
use mathlib.Core.Bool.{Bool, true, false}

pub data ℤ : Type 0 where
  pos : ℕ → ℤ
  negsuc : ℕ → ℤ

abbrev pub is_negative : ℤ → Bool
is_negative (pos n) = false
is_negative (negsuc n) = true

-- n - 1, as n-- in the source.
abbrev pub decrement : ℤ → ℤ
decrement (pos ℕ.zero) = negsuc 0
decrement (pos (ℕ.suc n)) = pos n
decrement (negsuc n) = negsuc (ℕ.suc n)

abbrev pub is_zero : ℤ → Bool
is_zero (pos ℕ.zero) = true
is_zero n = false

abbrev pub is_positive : ℤ → Bool
is_positive (pos (ℕ.suc n)) = true
is_positive n = false
