-- ===== src/Results/Sorting.antt =====
-- The order in which the list shows the results.
use drop_the_mic.Base.{
  ℕ, ◌≤◌, ◌≡◌, refl, ◌∙◌, ap, String, Bool, true, false, List, [], ◌∷◌, filter, ltb, arith, All,
  All-filter, Bool-cases, inl, inr, ◌==◌, eq_iff,
}
use drop_the_mic.Base.Num.{Number, nan, int, pos, negsuc, sub_number, is_positive, is_positive_sub}
use drop_the_mic.Base.Sort.{sort, IsSorted, sort-IsSorted, All-sort, filter-sort}
use drop_the_mic.Base.Text.{truthy}
use drop_the_mic.Api.{ChecklistResult}
use drop_the_mic.Results.{
  State, is_older, matches_search, matches_verdict, narrow, has_policy, has_type, apply_filters,
  filtered,
}

-- The results' dates, in milliseconds, where they can be read.
abbrev pub IsDated : (String → Number) → (ChecklistResult → ℕ) → ChecklistResult → Type 0
IsDated parse_date time r = parse_date r.metadata.creation_timestamp ≡ int (pos (time r))

-- Each result is at least as recent as each one that stands below it.
abbrev pub IsNewestFirst : (ChecklistResult → ℕ) → List ChecklistResult → Type 0
IsNewestFirst time [] = Unit
IsNewestFirst time (r ∷ rs) = All (λ s. time s ≤ time r) rs × IsNewestFirst time rs

module _ (parse_date : String → Number) (time : ChecklistResult → ℕ) where
  is_older-ltb :
      (a b : ChecklistResult)
      → IsDated parse_date time a
      → IsDated parse_date time b
      → is_older parse_date a b ≡ ltb (time a) (time b)
  unfolding is_older
  is_older-ltb a b p q = rw (p, q) (is_positive_sub (time b) (time a))

  newest_of_sorted :
      (r : ChecklistResult) (rs : List ChecklistResult)
      → IsDated parse_date time r
      → All (IsDated parse_date time) rs
      → All (λ s. is_older parse_date r s ≡ false) rs
      → All (λ s. time s ≤ time r) rs
  newest_of_sorted r [] p ps h = tt
  newest_of_sorted r (s ∷ rs) p (q, ps) (e, h) =
      (not_older (rw (is_older-ltb r s p q) at e), newest_of_sorted r rs p ps h)
    where
      not_older : ltb (time r) (time s) ≡ false → time s ≤ time r
      not_older t = ground arith

  IsNewestFirst-of_IsSorted :
      (l : List ChecklistResult)
      → All (IsDated parse_date time) l
      → IsSorted (is_older parse_date) l
      → IsNewestFirst time l
  IsNewestFirst-of_IsSorted [] ps s = tt
  IsNewestFirst-of_IsSorted (r ∷ rs) (p, ps) (h, s) =
      (newest_of_sorted r rs p ps h, IsNewestFirst-of_IsSorted rs ps s)

  older_trans :
      (a b c : ChecklistResult)
      → IsDated parse_date time a
      → IsDated parse_date time b
      → IsDated parse_date time c
      → is_older parse_date a b ≡ false
      → is_older parse_date b c ≡ false
      → is_older parse_date a c ≡ false
  older_trans a b c p q r h k =
      ground (arith, is_older-ltb a b p q, is_older-ltb b c q r, is_older-ltb a c p r)

  older_asym :
      (a b : ChecklistResult)
      → IsDated parse_date time a
      → IsDated parse_date time b
      → is_older parse_date a b ≡ true
      → is_older parse_date b a ≡ false
  older_asym a b p q h = ground (arith, is_older-ltb a b p q, is_older-ltb b a q p)

  pub sort-IsNewestFirst :
      (results : List ChecklistResult)
      → All (IsDated parse_date time) results
      → IsNewestFirst time (sort (is_older parse_date) results)
  sort-IsNewestFirst results ps =
      IsNewestFirst-of_IsSorted _ (All-sort _ _ results ps)
        (sort-IsSorted _ (IsDated parse_date time) older_trans older_asym results ps)

IsNewestFirst-filter :
    (time : ChecklistResult → ℕ) (p : ChecklistResult → Bool) (l : List ChecklistResult)
    → IsNewestFirst time l
    → IsNewestFirst time (filter p l)
IsNewestFirst-filter time p [] h = tt
IsNewestFirst-filter time p (r ∷ rs) (h, s) = elim (Bool-cases (p r)) [
  | inl e ↦ rw e (All-filter _ p rs h, IsNewestFirst-filter time p rs s)
  | inr e ↦ rw e (IsNewestFirst-filter time p rs s)
]

IsNewestFirst-narrow :
    (time : ChecklistResult → ℕ) (active : Bool) (p : ChecklistResult → Bool)
    (l : List ChecklistResult)
    → IsNewestFirst time l
    → IsNewestFirst time (narrow active p l)
IsNewestFirst-narrow time true p l h = IsNewestFirst-filter time p l h
IsNewestFirst-narrow time false p l h = h

IsNewestFirst-apply_filters :
    (time : ChecklistResult → ℕ) (lower : String → String) (st : State) (l : List ChecklistResult)
    → IsNewestFirst time l
    → IsNewestFirst time (apply_filters lower st l)
unfolding apply_filters
IsNewestFirst-apply_filters time lower st l₀ h =
    let l₁ = narrow (truthy st.search) (matches_search lower st.search) l₀ in
    let l₂ = narrow (truthy st.filter_policy) (has_policy st.filter_policy) l₁ in
    let l₃ = narrow (truthy st.filter_type) (has_type st.filter_type) l₂ in
    IsNewestFirst-narrow time (truthy st.filter_verdict) (matches_verdict st.filter_verdict) l₃ (
      IsNewestFirst-narrow time (truthy st.filter_type) (has_type st.filter_type) l₂ (
        IsNewestFirst-narrow time (truthy st.filter_policy) (has_policy st.filter_policy) l₁
          (IsNewestFirst-narrow time (truthy st.search) (matches_search lower st.search) l₀ h)))

-- Where the results' dates can be read, the list shows the newest results first.
pub filtered-IsNewestFirst :
    (parse_date : String → Number) (time : ChecklistResult → ℕ) (lower : String → String)
    (st : State) (results : List ChecklistResult)
    → All (IsDated parse_date time) results
    → IsNewestFirst time (filtered parse_date lower st results)
unfolding filtered
filtered-IsNewestFirst parse_date time lower st results ps =
    IsNewestFirst-apply_filters time lower st _ (sort-IsNewestFirst parse_date time results ps)

filter-filter_comm :
    (p q : ChecklistResult → Bool) (l : List ChecklistResult)
    → filter q (filter p l) ≡ filter p (filter q l)
filter-filter_comm p q [] = refl
filter-filter_comm p q (r ∷ rs) = ground (arith, filter-filter_comm p q rs)

filter-narrow :
    (q : ChecklistResult → Bool) (active : Bool) (p : ChecklistResult → Bool)
    (l : List ChecklistResult)
    → filter q (narrow active p l) ≡ narrow active p (filter q l)
filter-narrow q true p l = filter-filter_comm p q l
filter-narrow q false p l = refl

filter-apply_filters :
    (q : ChecklistResult → Bool) (lower : String → String) (st : State) (l : List ChecklistResult)
    → filter q (apply_filters lower st l) ≡ apply_filters lower st (filter q l)
unfolding apply_filters
filter-apply_filters q lower st l = simp (filter-narrow q)

is_positive_sub_self : (n : Number) → is_positive (sub_number n n) ≡ false
unfolding is_positive
is_positive_sub_self nan = refl
is_positive_sub_self (int (pos n)) = ground arith
is_positive_sub_self (int (negsuc n)) = ground arith

abbrev pub has_timestamp : String → ChecklistResult → Bool
has_timestamp timestamp r = r.metadata.creation_timestamp == timestamp

-- The results that carry one and the same timestamp are shown in the order in which the server
-- sent them: the list shows what the filters leave of them, with no sorting.
pub filtered_stable :
    (parse_date : String → Number) (lower : String → String) (st : State)
    (results : List ChecklistResult) (timestamp : String)
    → filter (has_timestamp timestamp) (filtered parse_date lower st results)
      ≡ apply_filters lower st (filter (has_timestamp timestamp) results)
unfolding filtered is_older
filtered_stable parse_date lower st results timestamp =
    filter-apply_filters (has_timestamp timestamp) lower st _
    ∙ ap (apply_filters lower st) (filter-sort _ (has_timestamp timestamp) tie results)
  where
    tie :
        (a b : ChecklistResult)
        → has_timestamp timestamp a ≡ true
        → has_timestamp timestamp b ≡ true
        → is_older parse_date a b ≡ false
    tie a b p q =
        rw ((eq_iff _ _).0 p, (eq_iff _ _).0 q) (is_positive_sub_self (parse_date timestamp))
