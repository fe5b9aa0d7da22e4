-- ===== src/Base/Maps.antt =====
-- Go maps with string keys, as association lists: a missing key reads as the zero value.
use Prim.Native.String.{String}
use mathlib.Core.Path.{◌≡◌, refl}
use mathlib.Core.List.{List, [], ◌∷◌}
use native.Mathlib.Omega.{arith}
use quarry.Base.Tests.{if◌then◌else◌, ◌==◌, String-eq}

module _ {V : Type 0} where
  -- m[k], where z is the zero value.
  unfoldable pub get : V → List (String × V) → String → V
  get z [] k = z
  get z ((j, v) ∷ m) k = if j == k then v else get z m k

  -- m[k] = v
  unfoldable pub put : List (String × V) → String → V → List (String × V)
  put [] k v = (k, v) ∷ []
  put ((j, w) ∷ m) k v = if j == k then (j, v) ∷ m else (j, w) ∷ put m k v

  pub get-put :
      (z : V) (m : List (String × V)) (k : String) (v : V) (j : String)
      → get z (put m k v) j ≡ (if k == j then v else get z m j)
  unfolding get put
  get-put z [] k v j = refl
  get-put z ((i, w) ∷ m) k v j = ground (arith, get-put z m k v j)
