-- ===== src/Artifact/Plain.antt =====
-- ValidatePath accepts exactly the relative paths of plain segments.
use quarry.Base.{
  ℕ, ◌≤◌, List, [], ◌∷◌, true, false, ℕ-eq, length, codes, join, Lacks, ◌≡◌, ◌≢◌, refl, arith, All,
}
use quarry.Artifact.Path.{slash, is_forbidden, is_text}

-- A segment that names a file or a directory below the one before it.
pub record IsSegment (seg : List ℕ) : Type 0 where
  pub some_text : seg ≢ []
  pub not_dot : seg ≢ codes "."
  pub not_dot_dot : seg ≢ codes ".."
  pub one : Lacks slash seg

pub record IsPlain (p : List ℕ) : Type 0 where
  pub short : length p ≤ 1024
  pub printable : All (λ c. is_forbidden c ≡ false) p
  pub first : List ℕ
  pub more : List (List ℕ)
  pub path : join slash (first ∷ more) ≡ p
  pub segments : All IsSegment (first ∷ more)

pub is_text_self : (xs : List ℕ) → is_text xs xs ≡ true
is_text_self [] = refl
is_text_self (x ∷ xs) = ground (arith, is_text_self xs)
