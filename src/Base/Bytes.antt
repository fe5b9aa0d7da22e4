-- ===== src/Base/Bytes.antt =====
-- Texts as lists of bytes, and splitting them, as Go's strings package does.
use Prim.Native.Nat.{ℕ}
use Prim.Native.Char.{code}
use Prim.Native.String.{String}
use mathlib.Core.Path.{◌≡◌, refl, sym, ap, ◌∙◌, subst}
use mathlib.Core.Logic.{inl, inr}
use mathlib.Core.Bool.{true, false}
use mathlib.Core.List.{List, [], ◌∷◌, ◌++◌}
use native.Mathlib.Omega.{arith}
use quarry.Base.Lists.{All}
use quarry.Base.Tests.{if◌then◌else◌, ◌==◌, ℕ-eq, Bool-cases}

-- The bytes of an ASCII text.
abbrev pub codes : String → List ℕ
codes String.[] = []
codes (String.◌∷◌ c s) = code c ∷ codes s

-- A byte at the front of the first part.
abbrev pub put_first : ℕ → List (List ℕ) → List (List ℕ)
put_first c [] = (c ∷ []) ∷ []
put_first c (s ∷ ss) = (c ∷ s) ∷ ss

-- strings.Split with a separator of one byte: there is always one part more than separators.
unfoldable pub split : ℕ → List ℕ → List (List ℕ)
split sep [] = [] ∷ []
split sep (c ∷ cs) = let rest = split sep cs in if c == sep then [] ∷ rest else put_first c rest

-- strings.Join with a separator of one byte.
abbrev pub join : ℕ → List (List ℕ) → List ℕ
join sep [] = []
join sep (s ∷ []) = s
join sep (s ∷ t ∷ ss) = s ++ sep ∷ join sep (t ∷ ss)

abbrev pub Lacks : ℕ → List ℕ → Type 0
Lacks c [] = Unit {0}
Lacks c (x ∷ xs) = ((x == c) ≡ false) × Lacks c xs

pub split-cons :
    (sep : ℕ) (cs : List ℕ) → (s : List ℕ) × (ss : List (List ℕ)) × (split sep cs ≡ s ∷ ss)
unfolding split
split-cons sep [] = ([], [], refl)
split-cons sep (c ∷ cs) = elim (Bool-cases (c == sep)) [
  | inl t ↦ ([], split sep cs, rw t refl)
  | inr t ↦ let (s, ss, e) = split-cons sep cs in (c ∷ s, ss, rw t (ap (put_first c) e))
]

join-empty_first :
    (sep : ℕ) (l : List (List ℕ)) (s : List ℕ) (ss : List (List ℕ))
    → l ≡ s ∷ ss
    → join sep ([] ∷ l) ≡ sep ∷ join sep l
join-empty_first sep l s ss e = subst (λ l. join sep ([] ∷ l) ≡ sep ∷ join sep l) (sym e) refl

same_byte : (c d : ℕ) → (c == d) ≡ true → c ≡ d
same_byte c d t = ground (arith, t)

join-put_first :
    (sep c : ℕ) (s : List ℕ) (ss : List (List ℕ))
    → join sep (put_first c (s ∷ ss)) ≡ c ∷ join sep (s ∷ ss)
join-put_first sep c s [] = refl
join-put_first sep c s (t ∷ ss) = refl

-- Joining the parts gives the text back.
pub join-split : (sep : ℕ) (cs : List ℕ) → join sep (split sep cs) ≡ cs
unfolding split
join-split sep [] = refl
join-split sep (c ∷ cs) =
    let (s, ss, e) = split-cons sep cs in
    elim (Bool-cases (c == sep)) [
      | inl t ↦ rw t (
          join-empty_first sep (split sep cs) s ss e
          ∙ (ap (λ x. sep ∷ x) (join-split sep cs) ∙ ap (λ x. x ∷ cs) (sym (same_byte c sep t))))
      | inr t ↦ rw t (
          ap (λ l. join sep (put_first c l)) e
          ∙ (join-put_first sep c s ss
              ∙ ap (λ x. c ∷ x) (ap (join sep) (sym e) ∙ join-split sep cs)))
    ]

-- The part before the first separator is the first part.
pub split-append :
    (sep : ℕ) (s cs : List ℕ) → Lacks sep s → split sep (s ++ sep ∷ cs) ≡ s ∷ split sep cs
unfolding split
split-append sep [] cs h = ground arith
split-append sep (c ∷ s) cs h = rw h.0 (ap (put_first c) (split-append sep s cs h.1))

All-put_first :
    (P : List ℕ → Type 0) (c : ℕ) (ss : List (List ℕ))
    → ((s : List ℕ) → P s → P (c ∷ s))
    → P (c ∷ [])
    → All P ss
    → All P (put_first c ss)
All-put_first P c [] f g h = (g, tt)
All-put_first P c (s ∷ ss) f g h = (f s h.0, h.1)

-- No part has the separator.
pub split-Lacks : (sep : ℕ) (cs : List ℕ) → All (Lacks sep) (split sep cs)
unfolding split
split-Lacks sep [] = (tt, tt)
split-Lacks sep (c ∷ cs) = elim (Bool-cases (c == sep)) [
  | inl t ↦ rw t (tt, split-Lacks sep cs)
  | inr t ↦
      rw t (All-put_first (Lacks sep) c (split sep cs) (λ s h. (t, h)) (t, tt) (split-Lacks sep cs))
]

split-whole : (sep : ℕ) (s : List ℕ) → Lacks sep s → split sep s ≡ s ∷ []
unfolding split
split-whole sep [] h = refl
split-whole sep (c ∷ s) h = rw h.0 (ap (put_first c) (split-whole sep s h.1))

-- Splitting gives the parts back that have no separator.
pub split-join :
    (sep : ℕ) (s : List ℕ) (ss : List (List ℕ))
    → All (Lacks sep) (s ∷ ss)
    → split sep (join sep (s ∷ ss)) ≡ s ∷ ss
split-join sep s [] h = split-whole sep s h.0
split-join sep s (t ∷ ss) h =
    split-append sep s (join sep (t ∷ ss)) h.0 ∙ ap (λ l. s ∷ l) (split-join sep t ss h.1)
