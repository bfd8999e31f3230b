-- ===== src/Tests/Listing.antt =====
-- The list and the detail of scan results, on two concrete scans.
use drop_the_mic.Base.{◌≡◌, refl, none, some, [], ◌∷◌, length, arith}
use drop_the_mic.Base.Sort.{sort}
use drop_the_mic.Base.Num.{pos, is_positive}
use drop_the_mic.Base.Text.{includes}
use drop_the_mic.Tests.{millis, parse_millis, same, good, bad, scans, copies}
use drop_the_mic.Results.{
  State, initial, is_older, matches_search, matches_verdict, apply_filters, filtered, total_pages,
  act, type_search, next, previous, select, back,
}
use drop_the_mic.Results.Sorting.{IsNewestFirst, filtered-IsNewestFirst}
use drop_the_mic.Results.Pages.{concat_pages, concat_pages-eq}
use drop_the_mic.Results.Session.{IsInRange, pages_of, run, run-initial-IsInRange, screen_stranded}
use drop_the_mic.Results.View.{table, list, screen, subtitle}

abbrev failures : State
failures = record initial { filter_verdict = "FAIL" }

abbrev searching : State
searching = record initial { search = "week" }

abbrev second_page : State
second_page = record initial { page = 1 }

filtered-failures : filtered parse_millis same failures scans ≡ bad ∷ []
unfolding filtered apply_filters matches_verdict is_older is_positive sort
filtered-failures = refl

filtered_search : filtered parse_millis same searching scans ≡ bad ∷ []
unfolding filtered apply_filters matches_search is_older is_positive sort includes
filtered_search = refl

filtered_all : filtered parse_millis same second_page scans ≡ bad ∷ good ∷ []
unfolding filtered apply_filters is_older is_positive sort
filtered_all = refl

filtered-IsNewestFirst_example :
    IsNewestFirst
      (λ r. millis r.metadata.creation_timestamp)
      (filtered parse_millis same failures scans)
filtered-IsNewestFirst_example =
    filtered-IsNewestFirst parse_millis (λ r. millis r.metadata.creation_timestamp) same failures
      scans (refl, (refl, tt))

concat_pages-eq_example : concat_pages (total_pages (length (copies 25))) 0 (copies 25) ≡ copies 25
concat_pages-eq_example = concat_pages-eq (copies 25)

run-initial-IsInRange_example :
    IsInRange
      (pages_of parse_millis same (copies 25) (
        run parse_millis same
          (copies 25)
          initial
          (type_search "n" ∷ next ∷ select good ∷ back ∷ [])))
      (run parse_millis same (copies 25) initial (type_search "n" ∷ next ∷ select good ∷ back ∷ []))
run-initial-IsInRange_example =
    run-initial-IsInRange parse_millis same (copies 25)
      (type_search "n" ∷ next ∷ select good ∷ back ∷ [])

screen_stranded_example :
    (screen parse_millis same (pos 300) second_page (some scans)
      ≡ list (subtitle (length (filtered parse_millis same second_page scans))) (table [] none))
    × (act (pages_of parse_millis same scans second_page) second_page previous ≡ second_page)
    × (act (pages_of parse_millis same scans second_page) second_page next ≡ second_page)
screen_stranded_example =
    screen_stranded parse_millis same (pos 300) second_page scans refl (omega arith)
      (rw filtered_all (omega arith)) (rw filtered_all (omega arith))
