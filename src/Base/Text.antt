-- ===== src/Base/Text.antt =====
-- JavaScript strings, as texts: truthiness, `||`, templates, `trim`, `includes`, `join`, and the
-- decimal form of a number.
pub mod Decimal
use Prim.Native.Nat.{ℕ, zero, suc}
use Prim.Native.Char.{Char, code}
use Prim.Native.String
use Prim.Native.String.{String, [], ◌∷◌}
use mathlib.Core.Path.{◌≡◌, refl, sym, subst}
use mathlib.Core.Logic.{◌↔◌, inl, inr}
use mathlib.Core.Bool.{Bool, true, false, not, ◌&&◌, ◌||◌, and-eq-true_iff}
use mathlib.Core.List
use mathlib.Core.List.{List}
use native.Mathlib.Omega.{arith}
use text.Mathlib.Text.{◌==◌, starts_with}
use text.Mathlib.TextEquality.{eq_iff}
use text.Mathlib.TextLemmas.{nil-append, cons-ne-nil}
use text.Mathlib.TextPositions.{starts_with-append}
use drop_the_mic.Base.Tests.{if◌then◌else◌, leb, eqb, Bool-cases}

infixr 65 ◌<>◌
abbrev pub ◌<>◌ : String → String → String
s <> t = String.◌++◌ s t

-- A string is true where it is not empty.
abbrev pub truthy : String → Bool
truthy s = not (s == "")

-- `s || d`
abbrev pub or_else : String → String → String
or_else s d = if truthy s then s else d

-- The white space and line terminators of ECMAScript.
unfoldable pub is_space : Char → Bool
is_space c =
    let n = code c in
    (leb 9 n && leb n 13)
    || eqb n 32
    || eqb n 0xa0
    || eqb n 0x1680
    || (leb 0x2000 n && leb n 0x200a)
    || eqb n 0x2028
    || eqb n 0x2029
    || eqb n 0x202f
    || eqb n 0x205f
    || eqb n 0x3000
    || eqb n 0xfeff

unfoldable pub trim_start : String → String
trim_start [] = []
trim_start (c ∷ s) = let rest = trim_start s in if is_space c then rest else c ∷ s

trim_end : String → String
trim_end [] = []
trim_end (c ∷ s) = let rest = trim_end s in if is_space c && rest == "" then [] else c ∷ rest

unfoldable pub trim : String → String
unfolding is_space trim_start trim_end
trim s = trim_end (trim_start s)

-- `s.includes(t)`: `t` begins at some place of `s`.
unfoldable pub includes : String → String → Bool
includes [] t = starts_with [] t
includes (c ∷ s) t = starts_with (c ∷ s) t || includes s t

unfoldable pub join : String → List String → String
join sep List.[] = ""
join sep (List.◌∷◌ x List.[]) = x
join sep (List.◌∷◌ x (List.◌∷◌ y ys)) = x <> sep <> join sep (List.◌∷◌ y ys)

starts_with-nil : (s : String) → starts_with s "" ≡ true
starts_with-nil s = subst (λ t. starts_with t "" ≡ true) (nil-append s) (starts_with-append "" s)

-- Every string includes the empty one.
pub includes-nil : (s : String) → includes s "" ≡ true
unfolding includes
includes-nil [] = starts_with-nil []
includes-nil (c ∷ s) = rw (starts_with-nil (c ∷ s))

-- A string of nothing but white space.
abbrev pub IsBlank : String → Type 0
IsBlank [] = Unit
IsBlank (c ∷ s) = (is_space c ≡ true) × IsBlank s

eq-nil_of_trim_end : (s : String) → trim_end s ≡ "" → IsBlank s
unfolding trim_end
eq-nil_of_trim_end [] e = tt
eq-nil_of_trim_end (c ∷ s) e = elim (Bool-cases (is_space c && trim_end s == "")) [
  | inl b ↦ let (sp, r) = (and-eq-true_iff _ _).0 b in (sp, eq-nil_of_trim_end s ((eq_iff _ _).0 r))
  | inr b ↦ absurd (cons-ne-nil c _ (rw b at e))
]

trim_end_of_IsBlank : (s : String) → IsBlank s → trim_end s ≡ ""
unfolding trim_end
trim_end_of_IsBlank [] b = refl
trim_end_of_IsBlank (c ∷ s) (e, b) = rw (e, trim_end_of_IsBlank s b)

IsBlank-of_trim_start : (s : String) → IsBlank (trim_start s) → IsBlank s
unfolding trim_start
IsBlank-of_trim_start [] b = tt
IsBlank-of_trim_start (c ∷ s) b = elim (Bool-cases (is_space c)) [
  | inl e ↦ (e, IsBlank-of_trim_start s (rw e at b))
  | inr e ↦ rw e at b
]

IsBlank-trim_start : (s : String) → IsBlank s → IsBlank (trim_start s)
unfolding trim_start
IsBlank-trim_start [] b = tt
IsBlank-trim_start (c ∷ s) (e, b) = rw e (IsBlank-trim_start s b)

-- `s.trim()` is empty exactly where `s` is blank.
pub trim-eq-nil_iff : (s : String) → (trim s ≡ "") ↔ IsBlank s
unfolding trim
trim-eq-nil_iff s = (
  λ e. IsBlank-of_trim_start s (eq-nil_of_trim_end (trim_start s) e),
  λ b. trim_end_of_IsBlank (trim_start s) (IsBlank-trim_start s b),
)
