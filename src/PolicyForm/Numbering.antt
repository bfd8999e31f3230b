-- ===== src/PolicyForm/Numbering.antt =====
-- The ids that "Add Check" gives to new checks: they are numbered by the length of the list.
use text.Mathlib.TextLemmas.{append_cancel_left}
use drop_the_mic.Base.{
  ℕ, zero, suc, ◌+◌, ◌≤◌, ◌<◌, ◌≡◌, refl, ap, ◌∙◌, subst, String, true, false, List, [], ◌∷◌, ◌++◌,
  map, length, take, drop, leb, ◌==◌, eq_iff, eq_refl, arith, length-append, length-take,
  length-drop, Bool-cases, inl, inr,
}
use mathlib.Core.List.{map-append}
use drop_the_mic.Base.Sets.{has, IsDistinct, has-append, IsDistinct-concat, fresh_of_distinct}
use drop_the_mic.Base.Text.{◌<>◌}
use drop_the_mic.Base.Text.Decimal.{decimal, decimal_inj}
use drop_the_mic.Api.{CheckItem}
use drop_the_mic.PolicyForm.{new_check, add_check, remove_check}
use drop_the_mic.PolicyForm.Checks.{remove_check-take-drop}

abbrev pub ids : List CheckItem → List String
ids = map (λ c. c.id)

abbrev pub check_id : ℕ → String
check_id n = "check-" <> decimal n

-- The list after `n` clicks on "Add Check", beginning with none.
abbrev pub add_checks : ℕ → List CheckItem
add_checks zero = []
add_checks (suc n) = add_check (add_checks n)

check_id_inj : (m n : ℕ) → check_id m ≡ check_id n → m ≡ n
check_id_inj m n e = decimal_inj m n (append_cancel_left "check-" _ _ e)

length-add_checks : (n : ℕ) → length (add_checks n) ≡ n
unfolding add_check
length-add_checks zero = refl
length-add_checks (suc n) = omega (
  arith,
  length-append (add_checks n) (new_check (length (add_checks n) + 1) ∷ []),
  length-add_checks n,
)

-- Each click adds the next number.
add_checks-suc : (n : ℕ) → add_checks (suc n) ≡ add_checks n ++ new_check (n + 1) ∷ []
unfolding add_check
add_checks-suc n = rw (length-add_checks n)

ids-suc : (n : ℕ) → ids (add_checks (suc n)) ≡ ids (add_checks n) ++ check_id (n + 1) ∷ []
ids-suc n = ap ids (add_checks-suc n) ∙ map-append _ (add_checks n) (new_check (n + 1) ∷ [])

check_id_ne : (m n : ℕ) → m < n → (check_id m == check_id n) ≡ false
check_id_ne m n h = elim (Bool-cases (check_id m == check_id n)) [
  | inl e ↦ absurd (apart (check_id_inj m n ((eq_iff (check_id m) (check_id n)).0 e)))
  | inr e ↦ e
]
  where
    apart : m ≡ n → ⊥
    apart q = omega arith

has-ids_fresh : (n m : ℕ) → n < m → has (ids (add_checks n)) (check_id m) ≡ false
has-ids_fresh zero m h = refl
has-ids_fresh (suc n) m h =
    rw (ids-suc n, has-append, has-ids_fresh n m (omega arith), check_id_ne (n + 1) m (omega arith))
      refl

-- As long as checks are only added, no two have one id.
pub ids-add_checks-IsDistinct : (n : ℕ) → IsDistinct (ids (add_checks n))
ids-add_checks-IsDistinct zero = tt
ids-add_checks-IsDistinct (suc n) =
    rw (ids-suc n)
      (IsDistinct-concat _ _ (ids-add_checks-IsDistinct n) (has-ids_fresh n (n + 1) (omega arith)))

has_last :
    (k : ℕ) (checks : List CheckItem) (c : CheckItem)
    → k ≤ length checks
    → has (ids (drop k (checks ++ c ∷ []))) c.id ≡ true
has_last zero [] c h = ground (arith, eq_refl c.id)
has_last zero (d ∷ checks) c h = ground (arith, has_last zero checks c (omega arith))
has_last (suc k) [] c h = absurd (none_left h)
  where
    none_left : suc k ≤ 0 → ⊥
    none_left q = omega arith
has_last (suc k) (d ∷ checks) c h = has_last k checks c (omega arith)

-- The list that is left when the check at `idx` of the numbered ones is removed.
left : ℕ → ℕ → List CheckItem
left idx n = take idx (add_checks n) ++ drop (idx + 1) (add_checks n)

remove_check-left : (n idx : ℕ) → idx + 1 < n → remove_check idx (add_checks n) ≡ left idx n
unfolding left
remove_check-left n idx h =
    let several : leb n 1 ≡ false = ground arith in
    rw (remove_check-take-drop idx (add_checks n), length-add_checks n, several) refl

length-left : (n idx : ℕ) → idx + 1 < n → length (left idx n) + 1 ≡ n
unfolding left
length-left n idx h = omega (
  arith,
  length-append (take idx (add_checks n)) (drop (idx + 1) (add_checks n)),
  length-take idx (add_checks n),
  length-drop (idx + 1) (add_checks n),
  length-add_checks n,
)

has_dropped :
    (n idx : ℕ)
    → idx + 1 < n + 1
    → has (ids (drop (idx + 1) (add_checks (suc n)))) (check_id (n + 1)) ≡ true
has_dropped n idx h =
    rw (add_checks-suc n)
      (has_last (idx + 1) (add_checks n) (new_check (n + 1)) (omega (arith, length-add_checks n)))

has-left : (n idx : ℕ) → idx + 1 < n + 1 → has (ids (left idx (suc n))) (check_id (n + 1)) ≡ true
unfolding left
has-left n idx h =
    let all = add_checks (suc n) in
    let split = map-append (λ c. c.id) (take idx all) (drop (idx + 1) all) in
    ap (λ l. has l (check_id (n + 1))) split
    ∙ has-append (ids (take idx all)) (ids (drop (idx + 1) all)) (check_id (n + 1))
    ∙ ground (arith, has_dropped n idx h)

-- The ids after the removal and the addition: those left, and the last number once more.
ids_readded :
    (n idx : ℕ)
    → idx + 1 < n + 1
    → ids (add_check (remove_check idx (add_checks (suc n))))
      ≡ ids (left idx (suc n)) ++ check_id (n + 1) ∷ []
unfolding add_check
ids_readded n idx h =
    let count : length (left idx (suc n)) + 1 ≡ n + 1 =
      omega (arith, length-left (suc n) idx (omega arith)) in
    ap (λ l. ids (add_check l)) (remove_check-left (suc n) idx (omega arith))
    ∙ map-append (λ c. c.id) (left idx (suc n)) (new_check (length (left idx (suc n)) + 1) ∷ [])
    ∙ ap (λ k. ids (left idx (suc n)) ++ check_id k ∷ []) count

-- Where the checks are numbered, removing one other than the last of the list and adding one gives
-- two checks one id.
pub add_check-remove_check-not-IsDistinct :
    (n idx : ℕ) → idx + 1 < n → ¬ IsDistinct (ids (add_check (remove_check idx (add_checks n))))
add_check-remove_check-not-IsDistinct zero idx h d = absurd (none_left h)
  where
    none_left : idx + 1 < 0 → ⊥
    none_left q = omega arith
add_check-remove_check-not-IsDistinct (suc n) idx h d =
    let less : idx + 1 < n + 1 = omega arith in
    let fresh =
      fresh_of_distinct (ids (left idx (suc n))) (check_id (n + 1)) []
        (subst IsDistinct (ids_readded n idx less) d) in
    let here = has-left n idx less in ground arith
