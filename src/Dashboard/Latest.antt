-- ===== src/Dashboard/Latest.antt =====
-- The results that the dashboard shows are the latest ones.
use mathlib.Core.List.{Perm}
use drop_the_mic.Base.{
  ℕ, ◌≤◌, ◌≡◌, ◌≢◌, refl, sym, subst, String, List, [], ◌∷◌, ◌++◌, arith, length, drop, length-take,
  length-drop, take-append-drop, All,
}
use drop_the_mic.Base.Num.{Number}
use drop_the_mic.Base.Sort.{sort, sort-perm}
use drop_the_mic.Api.{ChecklistResult}
use drop_the_mic.Results.{is_older}
use drop_the_mic.Results.Sorting.{IsDated, IsNewestFirst, sort-IsNewestFirst}
use drop_the_mic.Dashboard.{latest_results}

length-drop-nil : (l : List ChecklistResult) → l ≢ [] → 1 ≤ length l
length-drop-nil [] h = absurd (h refl)
length-drop-nil (r ∷ l) h = omega arith

-- Where the dates can be read, the results that are shown and the others, one behind the other, are
-- the results of the server, newest first, and eight are shown unless there are no others.
pub latest_results_lem :
    (parse_date : String → Number) (time : ChecklistResult → ℕ) (results : List ChecklistResult)
    → All (IsDated parse_date time) results
    → let shown = latest_results parse_date results in
      (others : List ChecklistResult) × Perm (shown ++ others) results
      × IsNewestFirst time (shown ++ others)
      × (length shown ≤ 8)
      × (others ≢ [] → length shown ≡ 8)
unfolding latest_results
latest_results_lem parse_date time results ps =
    let sorted = sort (is_older parse_date) results in
    let split = sym (take-append-drop 8 sorted) in
    (
      drop 8 sorted,
      subst (λ l. Perm l results) split (sort-perm (is_older parse_date) results),
      subst (IsNewestFirst time) split (sort-IsNewestFirst parse_date time results ps),
      omega (arith, length-take 8 sorted),
      λ h.
          omega
            (arith, length-take 8 sorted, length-drop 8 sorted, length-drop-nil (drop 8 sorted) h),
    )
