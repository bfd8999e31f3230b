-- ===== src/Base/Sort.antt =====
-- `Array.prototype.sort` with a comparator: a stable sort, here by insertion. `after x y` says that
-- the comparator's result for (x, y) is positive, so that `x` has to stand after `y`. A result of
-- NaN counts as 0. ECMAScript fixes the result where the comparator is consistent.
pub mod Distinct
use mathlib.Core.Path.{◌≡◌, refl, ap, ◌∙◌}
use mathlib.Core.Logic.{◌⊎◌, ◌↔◌, inl, inr}
use mathlib.Core.Bool.{Bool, true, false}
use mathlib.Core.List.{List, [], ◌∷◌, Perm, Memᴰ}
use mathlib.Core.List.Memᴰ
use mathlib.Core.List.Perm
use native.Mathlib.Omega.{arith}
use drop_the_mic.Base.Tests.{if◌then◌else◌, Bool-cases}
use drop_the_mic.Base.Lists.{filter}
use drop_the_mic.Base.Preds.{All}

module _ {ℓ} {A : Type ℓ} (after : A → A → Bool) where
  insert : A → List A → List A
  insert x [] = x ∷ []
  insert x (y ∷ ys) = let rest = y ∷ insert x ys in if after x y then rest else x ∷ y ∷ ys

  unfoldable pub sort : List A → List A
  unfolding insert
  sort [] = []
  sort (x ∷ xs) = insert x (sort xs)

  -- Every element may stand before each later one.
  abbrev pub IsSorted : List A → Type 0
  IsSorted [] = Unit
  IsSorted (x ∷ xs) = All (λ y. after x y ≡ false) xs × IsSorted xs

  insert-perm : (x : A) (l : List A) → Perm (insert x l) (x ∷ l)
  unfolding insert
  insert-perm x [] = Perm.rfl
  insert-perm x (y ∷ ys) = elim (Bool-cases (after x y)) [
    | inl e ↦ rw e (Perm.trans (Perm.cons y (insert-perm x ys)) (Perm.swap x y ys))
    | inr e ↦ rw e Perm.rfl
  ]

  pub sort-perm : (l : List A) → Perm (sort l) l
  unfolding sort
  sort-perm [] = Perm.rfl
  sort-perm (x ∷ xs) = Perm.trans (insert-perm x (sort xs)) (Perm.cons x (sort-perm xs))

  module _ {κ} (P : A → Type κ) where
    All-insert : (x : A) (l : List A) → P x → All P l → All P (insert x l)
    unfolding insert
    All-insert x [] p h = (p, tt)
    All-insert x (y ∷ ys) p (q, h) = elim (Bool-cases (after x y)) [
      | inl e ↦ rw e (q, All-insert x ys p h)
      | inr e ↦ rw e (p, (q, h))
    ]

    pub All-sort : (l : List A) → All P l → All P (sort l)
    unfolding sort
    All-sort [] h = tt
    All-sort (x ∷ xs) (p, h) = All-insert x (sort xs) p (All-sort xs h)

  mem_of_mem-insert : {a : A} (x : A) (l : List A) → Memᴰ a (insert x l) → (a ≡ x) ⊎ Memᴰ a l
  unfolding insert
  mem_of_mem-insert x [] m = Memᴰ.cases_cons m
  mem_of_mem-insert {a} x (y ∷ ys) m = elim (Bool-cases (after x y)) [
    | inl e ↦ elim (Memᴰ.cases_cons (rw e at m)) [
      | inl q ↦ inr (Memᴰ.head q)
      | inr n ↦ elim (mem_of_mem-insert x ys n) [ inl q ↦ inl q | inr k ↦ inr (Memᴰ.tail k) ]
    ]
    | inr e ↦ Memᴰ.cases_cons (rw e at m)
  ]

  mem-insert_self : (x : A) (l : List A) → Memᴰ x (insert x l)
  unfolding insert
  mem-insert_self x [] = Memᴰ.head refl
  mem-insert_self x (y ∷ ys) = elim (Bool-cases (after x y)) [
    | inl e ↦ rw e (Memᴰ.tail (mem-insert_self x ys))
    | inr e ↦ rw e (Memᴰ.head refl)
  ]

  mem-insert_of_mem : {a : A} (x : A) (l : List A) → Memᴰ a l → Memᴰ a (insert x l)
  unfolding insert
  mem-insert_of_mem x [] m = elim m [ ]
  mem-insert_of_mem x (y ∷ ys) m = elim (Bool-cases (after x y)) [
    | inl e ↦ rw e (elim (Memᴰ.cases_cons m) [
      | inl q ↦ Memᴰ.head q
      | inr n ↦ Memᴰ.tail (mem-insert_of_mem x ys n)
    ])
    | inr e ↦ rw e (Memᴰ.tail m)
  ]

  mem_of_mem-sort : {a : A} (l : List A) → Memᴰ a (sort l) → Memᴰ a l
  unfolding sort
  mem_of_mem-sort [] m = m
  mem_of_mem-sort (x ∷ xs) m = elim (mem_of_mem-insert x (sort xs) m) [
    | inl q ↦ Memᴰ.head q
    | inr n ↦ Memᴰ.tail (mem_of_mem-sort xs n)
  ]

  mem-sort_of_mem : {a : A} (l : List A) → Memᴰ a l → Memᴰ a (sort l)
  unfolding sort
  mem-sort_of_mem [] m = m
  mem-sort_of_mem (x ∷ xs) (Memᴰ.head q) = rw q (mem-insert_self x (sort xs))
  mem-sort_of_mem (x ∷ xs) (Memᴰ.tail m) = mem-insert_of_mem x (sort xs) (mem-sort_of_mem xs m)

  pub Memᴰ-sort : {a : A} (l : List A) → Memᴰ a (sort l) ↔ Memᴰ a l
  Memᴰ-sort l = (mem_of_mem-sort l, mem-sort_of_mem l)

  -- Elements among which none has to stand after another keep their order.
  module _ (q : A → Bool) where
    insert-hit :
        (x : A) (l : List A)
        → q x ≡ true
        → ((y : A) → q y ≡ true → after x y ≡ false)
        → filter q (insert x l) ≡ x ∷ filter q l
    unfolding insert
    insert-hit x [] e tie = rw e
    insert-hit x (y ∷ ys) e tie = ground (arith, insert-hit x ys e tie, tie y)

    insert-miss : (x : A) (l : List A) → q x ≡ false → filter q (insert x l) ≡ filter q l
    unfolding insert
    insert-miss x [] e = rw e
    insert-miss x (y ∷ ys) e = ground (arith, insert-miss x ys e)

    pub filter-sort :
        ((x y : A) → q x ≡ true → q y ≡ true → after x y ≡ false)
        → (l : List A) → filter q (sort l) ≡ filter q l
    unfolding sort
    filter-sort tie [] = refl
    filter-sort tie (x ∷ xs) = elim (Bool-cases (q x)) [
      | inl e ↦ rw e (insert-hit x (sort xs) e (λ y. tie x y e) ∙ ap (x ∷◌) (filter-sort tie xs))
      | inr e ↦ rw e (insert-miss x (sort xs) e ∙ filter-sort tie xs)
    ]

  -- The comparator orders the elements that satisfy `P`.
  module _ {κ} (P : A → Type κ)
      (trans : (x y z : A)
        → P x
        → P y
        → P z
        → after x y ≡ false
        → after y z ≡ false
        → after x z ≡ false)
      (asym : (x y : A) → P x → P y → after x y ≡ true → after y x ≡ false) where
    later :
        (x y : A) (ys : List A)
        → P x
        → P y
        → All P ys
        → after x y ≡ false
        → All (λ z. after y z ≡ false) ys
        → All (λ z. after x z ≡ false) ys
    later x y [] px py ps e h = tt
    later x y (z ∷ zs) px py (pz, ps) e (h, hs) =
        (trans x y z px py pz e h, later x y zs px py ps e hs)

    insert-IsSorted : (x : A) (l : List A) → P x → All P l → IsSorted l → IsSorted (insert x l)
    unfolding insert
    insert-IsSorted x [] px ps s = (tt, tt)
    insert-IsSorted x (y ∷ ys) px (py, ps) (h, s) = elim (Bool-cases (after x y)) [
      | inl e ↦ rw e (
        All-insert (λ z. after y z ≡ false) x ys (asym x y px py e) h,
        insert-IsSorted x ys px ps s,
      )
      | inr e ↦ rw e ((e, later x y ys px py ps e h), (h, s))
    ]

    pub sort-IsSorted : (l : List A) → All P l → IsSorted (sort l)
    unfolding sort
    sort-IsSorted [] ps = tt
    sort-IsSorted (x ∷ xs) (px, ps) =
        insert-IsSorted x (sort xs) px (All-sort P xs ps) (sort-IsSorted xs ps)
