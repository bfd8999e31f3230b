-- ===== src/Base/Sets.antt =====
-- Sets of strings: `includes` of an array, and the `Set` of JavaScript as the list of its members in
-- the order in which they were added.
use Prim.Native.Nat.{suc, ◌+◌, ◌≤◌}
use native.Mathlib.Nat.{zero-add}
use Prim.Native.String.{String}
use mathlib.Core.Path.{◌≡◌, refl, sym, ap, subst, ◌∙◌}
use mathlib.Core.Logic.{◌↔◌, inl, inr}
use mathlib.Core.Bool.{Bool, false, not, ◌||◌}
use mathlib.Core.List.{List, [], ◌∷◌, ◌++◌, append-nil, append_assoc}
use native.Mathlib.Omega.{arith}
use text.Mathlib.Text.{◌==◌}
use text.Mathlib.TextEquality.{eq_iff}
use drop_the_mic.Base.Tests.{if◌then◌else◌, Bool-cases}
use drop_the_mic.Base.Lists.{filter, length, length-append}

-- `items.includes(x)`, `set.has(x)`
abbrev pub has : List String → String → Bool
has [] x = false
has (y ∷ ys) x = y == x || has ys x

-- No item occurs twice.
abbrev pub IsDistinct : List String → Type 0
IsDistinct [] = Unit
IsDistinct (x ∷ xs) = (has xs x ≡ false) × IsDistinct xs

-- `items.filter(v => v !== x)`, and `set.delete(x)`
abbrev pub without : String → List String → List String
without x = filter (λ y. not (y == x))

-- `set.add(x)`
abbrev pub add : String → List String → List String
add x s = if has s x then s else s ++ x ∷ []

add_all : List String → List String → List String
add_all s [] = s
add_all s (x ∷ xs) = add_all (add x s) xs

-- `new Set(items)`
unfoldable pub set_of : List String → List String
unfolding add_all
set_of items = add_all [] items

pub has-append : (xs ys : List String) (x : String) → has (xs ++ ys) x ≡ (has xs x || has ys x)
has-append [] ys x = refl
has-append (y ∷ xs) ys x = ground (arith, has-append xs ys x)

pub has-without :
    (x y : String) (s : List String) → has (without x s) y ≡ (if x == y then false else has s y)
has-without x y [] = ground arith
has-without x y (z ∷ s) = ground (arith, has-without x y s, eq_iff x y, eq_iff z x, eq_iff z y)

pub has-add : (x y : String) (s : List String) → has (add x s) y ≡ (x == y || has s y)
has-add x y s = ground (arith, has-append s (x ∷ []) y, eq_iff x y)

pub IsDistinct-without : (x : String) (s : List String) → IsDistinct s → IsDistinct (without x s)
IsDistinct-without x [] d = tt
IsDistinct-without x (y ∷ s) d = ground (arith, IsDistinct-without x s, has-without x y s)

pub IsDistinct-concat :
    (s : List String) (x : String) → IsDistinct s → has s x ≡ false → IsDistinct (s ++ x ∷ [])
IsDistinct-concat [] x d h = (refl, tt)
IsDistinct-concat (y ∷ s) x (e, d) h = (
  ground (arith, has-append s (x ∷ []) y, eq_iff x y, eq_iff y x),
  IsDistinct-concat s x d (ground arith),
)

pub IsDistinct-add : (x : String) (s : List String) → IsDistinct s → IsDistinct (add x s)
IsDistinct-add x s d = elim (Bool-cases (has s x)) [
  | inl e ↦ rw e d
  | inr e ↦ rw e (IsDistinct-concat s x d e)
]

has-add_all :
    (s items : List String) (x : String) → has (add_all s items) x ≡ (has s x || has items x)
unfolding add_all
has-add_all s [] x = ground arith
has-add_all s (y ∷ items) x = ground (arith, has-add_all (add y s) items x, has-add y x s)

-- A set has the items that it was made of, each once.
pub has-set_of : (items : List String) (x : String) → has (set_of items) x ≡ has items x
unfolding set_of
has-set_of items x = has-add_all [] items x

IsDistinct-add_all : (s items : List String) → IsDistinct s → IsDistinct (add_all s items)
unfolding add_all
IsDistinct-add_all s [] d = d
IsDistinct-add_all s (x ∷ items) d = IsDistinct-add_all (add x s) items (IsDistinct-add x s d)

pub set_of-IsDistinct : (items : List String) → IsDistinct (set_of items)
unfolding set_of
set_of-IsDistinct items = IsDistinct-add_all [] items tt

pub fresh_of_distinct :
    (s : List String) (x : String) (items : List String)
    → IsDistinct (s ++ x ∷ items)
    → has s x ≡ false
fresh_of_distinct [] x items d = refl
fresh_of_distinct (y ∷ s) x items (e, d) =
    ground
      (arith, has-append s (x ∷ items) y, eq_iff x y, eq_iff y x, fresh_of_distinct s x items d)

add_all-distinct : (s items : List String) → IsDistinct (s ++ items) → add_all s items ≡ s ++ items
unfolding add_all
add_all-distinct s [] d = sym (append-nil s)
add_all-distinct s (x ∷ items) d =
    let assoc = append_assoc s (x ∷ []) items in
    rw (fresh_of_distinct s x items d)
      (add_all-distinct (s ++ x ∷ []) items (subst IsDistinct (sym assoc) d) ∙ assoc)

length-add_all-le : (s items : List String) → length (add_all s items) ≤ length s + length items
unfolding add_all
length-add_all-le s [] = omega arith
length-add_all-le s (x ∷ items) =
    ground (arith, length-add_all-le (add x s) items, length-append s (x ∷ []))

IsDistinct-of_length :
    (s items : List String)
    → length (add_all s items) ≡ length s + length items
    → IsDistinct s
    → IsDistinct (s ++ items)
unfolding add_all
IsDistinct-of_length s [] e d = rw append-nil d
IsDistinct-of_length s (x ∷ items) e d = elim (Bool-cases (has s x)) [
  | inl h ↦ absurd (too_short (rw h at e))
  | inr h ↦
      subst IsDistinct (append_assoc s (x ∷ []) items)
        (IsDistinct-of_length (s ++ x ∷ []) items (grown (rw h at e)) (IsDistinct-concat s x d h))
]
  where
    too_short : length (add_all s items) ≡ length s + suc (length items) → ⊥
    too_short q = omega (arith, length-add_all-le s items)

    grown :
        length (add_all (s ++ x ∷ []) items) ≡ length s + suc (length items)
        → length (add_all (s ++ x ∷ []) items) ≡ length (s ++ x ∷ []) + length items
    grown q = omega (arith, length-append s (x ∷ []))

-- Making a set of items that are distinct changes nothing.
pub set_of_distinct : (items : List String) → IsDistinct items → set_of items ≡ items
unfolding set_of
set_of_distinct items d = add_all-distinct [] items d

-- A set has as many members as items were given only where these are distinct.
pub length-set_of_iff :
    (items : List String) → (length (set_of items) ≡ length items) ↔ IsDistinct items
unfolding set_of
length-set_of_iff items = (
  λ e. IsDistinct-of_length [] items (rw zero-add e) tt,
  λ d. ap length (add_all-distinct [] items d),
)
