-- ===== src/Base/Preds.antt =====
-- Predicates on lists by recursion, and what the array methods keep of them.
use mathlib.Core.Path.{◌≡◌, refl}
use mathlib.Core.Logic.{◌↔◌, inl, inr}
use mathlib.Core.Bool.{Bool, true}
use mathlib.Core.List.{List, [], ◌∷◌, ◌++◌, Memᴰ}
use drop_the_mic.Base.Tests.{Bool-cases}
use drop_the_mic.Base.Lists.{filter}

module _ {ℓ κ} {A : Type ℓ} (P : A → Type κ) where
  abbrev pub All : List A → Type κ
  All [] = Unit
  All (x ∷ xs) = P x × All xs

  pub All-append : (xs ys : List A) → All xs → All ys → All (xs ++ ys)
  All-append [] ys hx hy = hy
  All-append (x ∷ xs) ys (p, hx) hy = (p, All-append xs ys hx hy)

  pub All-filter : (p : A → Bool) (xs : List A) → All xs → All (filter p xs)
  All-filter p [] h = tt
  All-filter p (x ∷ xs) (hx, h) = elim (Bool-cases (p x)) [
    | inl e ↦ rw e (hx, All-filter p xs h)
    | inr e ↦ rw e (All-filter p xs h)
  ]

  pub All-of_forall : ((x : A) → P x) → (xs : List A) → All xs
  All-of_forall f [] = tt
  All-of_forall f (x ∷ xs) = (f x, All-of_forall f xs)

  pub All-mem : {a : A} {xs : List A} → Memᴰ a xs → All xs → P a
  All-mem (Memᴰ.head e) (p, _) = rw e p
  All-mem (Memᴰ.tail m) (_, h) = All-mem m h

module _ {ℓ κ μ} {A : Type ℓ} {P : A → Type κ} {Q : A → Type μ} where
  pub All-map : ((x : A) → P x → Q x) → (xs : List A) → All P xs → All Q xs
  All-map f [] h = tt
  All-map f (x ∷ xs) (p, h) = (f x p, All-map f xs h)

module _ {ℓ} {A : Type ℓ} where
  -- The elements kept by `filter` are those that pass the test.
  pub filter-passes : (p : A → Bool) (xs : List A) → All (λ x. p x ≡ true) (filter p xs)
  filter-passes p [] = tt
  filter-passes p (x ∷ xs) = elim (Bool-cases (p x)) [
    | inl e ↦ rw e (e, filter-passes p xs)
    | inr e ↦ rw e (filter-passes p xs)
  ]

  mem_of_mem-cons :
      {a x : A} (p : A → Bool) (xs ys : List A)
      → p x ≡ true
      → (Memᴰ a ys → Memᴰ a xs × (p a ≡ true))
      → Memᴰ a (x ∷ ys)
      → Memᴰ a (x ∷ xs) × (p a ≡ true)
  mem_of_mem-cons p xs ys e ih (Memᴰ.head q) = (Memᴰ.head q, rw q e)
  mem_of_mem-cons p xs ys e ih (Memᴰ.tail m) = let (n, t) = ih m in (Memᴰ.tail n, t)

  mem_of_mem-filter :
      {a : A} (p : A → Bool) (xs : List A) → Memᴰ a (filter p xs) → Memᴰ a xs × (p a ≡ true)
  mem_of_mem-filter p [] m = elim m [ ]
  mem_of_mem-filter p (x ∷ xs) m = elim (Bool-cases (p x)) [
    | inl e ↦ mem_of_mem-cons p xs (filter p xs) e (mem_of_mem-filter p xs) (rw e at m)
    | inr e ↦ let (n, t) = mem_of_mem-filter p xs (rw e at m) in (Memᴰ.tail n, t)
  ]

  mem-filter_of_mem :
      {a : A} (p : A → Bool) (xs : List A) → Memᴰ a xs → p a ≡ true → Memᴰ a (filter p xs)
  mem-filter_of_mem p [] m e = elim m [ ]
  mem-filter_of_mem p (x ∷ xs) (Memᴰ.head q) e = rw (← q, e) (Memᴰ.head refl)
  mem-filter_of_mem p (x ∷ xs) (Memᴰ.tail m) e = elim (Bool-cases (p x)) [
    | inl t ↦ rw t (Memᴰ.tail (mem-filter_of_mem p xs m e))
    | inr t ↦ rw t (mem-filter_of_mem p xs m e)
  ]

  pub Memᴰ-filter :
      {a : A} (p : A → Bool) (xs : List A) → Memᴰ a (filter p xs) ↔ (Memᴰ a xs × (p a ≡ true))
  Memᴰ-filter p xs = (mem_of_mem-filter p xs, λ (m, e). mem-filter_of_mem p xs m e)

  pub filter-All : (p : A → Bool) (xs : List A) → All (λ x. p x ≡ true) xs → filter p xs ≡ xs
  filter-All p [] h = refl
  filter-All p (x ∷ xs) (e, h) = rw (e, filter-All p xs h)
