-- ===== src/Results/Pages.antt =====
-- The pages of the list: together they are the list, and each in range has between 1 and 20 rows.
use drop_the_mic.Base.{
  ℕ, zero, suc, ◌+◌, ◌-◌, ◌*◌, ◌≤◌, ◌<◌, ◌≡◌, refl, ap, sym, List, [], ◌∷◌, ◌++◌, arith, length,
  take, drop, length-take, length-drop, take-append-drop,
}
use drop_the_mic.Results.{page_size, total_pages, paged}

-- The pages `first`, `first + 1`, …, `count` of them, one behind the other.
abbrev pub concat_pages {ℓ} : {A : Type ℓ} → ℕ → ℕ → List A → List A
concat_pages zero first list = []
concat_pages (suc count) first list = paged first list ++ concat_pages count (first + 1) list

module _ {ℓ} {A : Type ℓ} where
  drop-nil_of_le : (n : ℕ) (xs : List A) → length xs ≤ n → drop n xs ≡ []
  drop-nil_of_le zero [] h = refl
  drop-nil_of_le zero (x ∷ xs) h = absurd (omega arith)
  drop-nil_of_le (suc n) [] h = refl
  drop-nil_of_le (suc n) (x ∷ xs) h = drop-nil_of_le n xs (omega arith)

  drop-nil : (n : ℕ) → drop {A = A} n [] ≡ []
  drop-nil zero = refl
  drop-nil (suc n) = refl

  drop-drop : (m n : ℕ) (xs : List A) → drop n (drop m xs) ≡ drop (m + n) xs
  drop-drop zero n xs = let e : 0 + n ≡ n = omega arith in rw e
  drop-drop (suc m) n [] = rw (drop-nil n, drop-nil (suc m + n))
  drop-drop (suc m) n (x ∷ xs) =
      let e : suc m + n ≡ suc (m + n) = omega arith in rw e (drop-drop m n xs)

  pub paged-take-drop :
      (page : ℕ) (list : List A) → paged page list ≡ take page_size (drop (page * page_size) list)
  unfolding paged
  paged-take-drop page list =
      let e : (page + 1) * 20 - page * 20 ≡ 20 = omega arith in
      ap (λ k. take k (drop (page * 20) list)) e

  concat_pages-drop :
      (count first : ℕ) (list : List A)
      → length list ≤ (first + count) * page_size
      → concat_pages count first list ≡ drop (first * page_size) list
  concat_pages-drop zero first list h = sym (drop-nil_of_le (first * 20) list (omega arith))
  concat_pages-drop (suc count) first list h =
      let e : (first + 1) * 20 ≡ first * 20 + 20 = omega arith in
      rw
        (
          paged-take-drop,
          concat_pages-drop count (first + 1) list (omega arith),
          e,
          ← drop-drop (first * 20) 20 list,
        )
        (take-append-drop 20 (drop (first * 20) list))

-- The pages, put one behind the other, are the whole list in its order.
pub concat_pages-eq {ℓ} :
    {A : Type ℓ} (list : List A) → concat_pages (total_pages (length list)) 0 list ≡ list
unfolding total_pages
concat_pages-eq list = concat_pages-drop _ 0 list (omega arith)

-- A page has between 1 and 20 rows if its number is below the number of pages, and none otherwise.
pub length-paged {ℓ} :
    {A : Type ℓ} (page : ℕ) (list : List A)
    → (page < total_pages (length list)
        → (1 ≤ length (paged page list)) × (length (paged page list) ≤ page_size))
      × (total_pages (length list) ≤ page → paged page list ≡ [])
unfolding total_pages
length-paged page list = (
  λ h. rw (paged-take-drop page list) (
    omega (arith, length-take 20 (drop (page * 20) list), length-drop (page * 20) list),
    omega (arith, length-take 20 (drop (page * 20) list)),
  ),
  λ h. rw (paged-take-drop page list, drop-nil_of_le (page * 20) list (omega arith)),
)
