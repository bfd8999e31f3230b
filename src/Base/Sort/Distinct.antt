-- ===== src/Base/Sort/Distinct.antt =====
-- Sorting strings keeps a set a set.
use mathlib.Core.Path.{◌≡◌, refl, ◌∙◌}
use mathlib.Core.Logic.{inl, inr}
use mathlib.Core.Bool.{Bool, false, ◌||◌}
use mathlib.Core.List.{List, [], ◌∷◌}
use Prim.Native.String.{String}
use native.Mathlib.Omega.{arith}
use text.Mathlib.Text.{◌==◌}
use text.Mathlib.TextEquality.{eq_iff}
use drop_the_mic.Base.Tests.{Bool-cases}
use drop_the_mic.Base.Sets.{has, IsDistinct}
use drop_the_mic.Base.Sort.{insert, sort}

module _ (after : String → String → Bool) where
  has-insert : (x y : String) (l : List String) → has (insert after x l) y ≡ (x == y || has l y)
  unfolding insert
  has-insert x y [] = refl
  has-insert x y (z ∷ zs) = ground (arith, has-insert x y zs)

  pub has-sort : (l : List String) (y : String) → has (sort after l) y ≡ has l y
  unfolding sort
  has-sort [] y = refl
  has-sort (x ∷ xs) y = rw (has-insert x y (sort after xs), has-sort xs y)

  IsDistinct-insert :
      (x : String) (l : List String)
      → has l x ≡ false
      → IsDistinct l
      → IsDistinct (insert after x l)
  unfolding insert
  IsDistinct-insert x [] h d = (refl, tt)
  IsDistinct-insert x (z ∷ zs) h (e, d) = elim (Bool-cases (after x z)) [
    | inl a ↦ rw a (not_at_end z zs x h e, IsDistinct-insert x zs (tail_false z zs x h) d)
    | inr a ↦ rw a (h, (e, d))
  ]
    where
      tail_false :
          (z : String) (zs : List String) (x : String) → has (z ∷ zs) x ≡ false → has zs x ≡ false
      tail_false z zs x h = ground arith

      not_at_end :
          (z : String) (zs : List String) (x : String)
          → has (z ∷ zs) x ≡ false
          → has zs z ≡ false
          → has (insert after x zs) z ≡ false
      not_at_end z zs x h e = ground (arith, has-insert x z zs, eq_iff x z, eq_iff z x)

  pub IsDistinct-sort : (l : List String) → IsDistinct l → IsDistinct (sort after l)
  unfolding sort
  IsDistinct-sort [] d = tt
  IsDistinct-sort (x ∷ xs) (e, d) =
      IsDistinct-insert x (sort after xs) (has-sort xs x ∙ e) (IsDistinct-sort xs d)
