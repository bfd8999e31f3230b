-- ===== src/Base/Maps.antt =====
-- Maps by text, as association lists in the order in which their keys were added. The order of Go's
-- `range` over a map is not fixed: what is said of a map does not depend on it.
use Prim.Native.String.{String}
use mathlib.Core.Path.{◌≡◌, refl, ◌∙◌}
use mathlib.Core.Bool.{false}
use mathlib.Core.Option.{Option, none, some}
use mathlib.Core.List.{List, [], ◌∷◌}
use native.Mathlib.Omega.{arith}
use text.Mathlib.Text.{◌==◌}
use text.Mathlib.TextEquality.{eq_iff}
use text.Mathlib.TextPositions.{eq_refl}
use drop_the_mic.Base.Tests.{if◌then◌else◌}
use drop_the_mic.Base.Sets.{IsDistinct, has}

abbrev pub Map {ℓ} : Type ℓ → Type ℓ
Map A = List (String × A)

module _ {ℓ} {A : Type ℓ} where
  abbrev pub lookup : String → Map A → Option A
  lookup key [] = none
  lookup key ((k, a) ∷ m) = let rest = lookup key m in if k == key then some a else rest

  -- `m[key] = a`
  abbrev pub store : String → A → Map A → Map A
  store key a [] = (key, a) ∷ []
  store key a ((k, b) ∷ m) =
      let rest = store key a m in if k == key then (k, a) ∷ m else (k, b) ∷ rest

  -- `delete(m, key)`
  abbrev pub remove_key : String → Map A → Map A
  remove_key key [] = []
  remove_key key ((k, b) ∷ m) =
      let rest = remove_key key m in if k == key then rest else (k, b) ∷ rest

  abbrev pub keys_of : Map A → List String
  keys_of [] = []
  keys_of ((k, a) ∷ m) = k ∷ keys_of m

  pub lookup-store :
      (key other : String) (a : A) (m : Map A)
      → lookup other (store key a m) ≡ (if key == other then some a else lookup other m)
  lookup-store key other a [] = refl
  lookup-store key other a ((k, b) ∷ m) =
      ground (arith, lookup-store key other a m, eq_iff k key, eq_iff k other, eq_iff key other)

  pub lookup-store_same : (key : String) (a : A) (m : Map A) → lookup key (store key a m) ≡ some a
  lookup-store_same key a m = lookup-store key key a m ∙ rw (eq_refl key) refl

  pub lookup-remove_key :
      (key other : String) (m : Map A)
      → lookup other (remove_key key m) ≡ (if key == other then none else lookup other m)
  lookup-remove_key key other [] = ground arith
  lookup-remove_key key other ((k, b) ∷ m) =
      ground (arith, lookup-remove_key key other m, eq_iff k key, eq_iff k other, eq_iff key other)

  has-keys_of-store :
      (key other : String) (a : A) (m : Map A)
      → has (keys_of m) other ≡ false
      → (key == other) ≡ false
      → has (keys_of (store key a m)) other ≡ false
  has-keys_of-store key other a [] h n = ground arith
  has-keys_of-store key other a ((k, b) ∷ m) h n = ground (arith, has-keys_of-store key other a m)

  pub IsDistinct-keys_of-store :
      (key : String) (a : A) (m : Map A)
      → IsDistinct (keys_of m)
      → IsDistinct (keys_of (store key a m))
  IsDistinct-keys_of-store key a [] d = (refl, tt)
  IsDistinct-keys_of-store key a ((k, b) ∷ m) (e, d) = ground (
    arith,
    IsDistinct-keys_of-store key a m d,
    has-keys_of-store key k a m e,
    eq_iff k key,
    eq_iff key k,
  )
