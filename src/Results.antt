-- ===== src/Results.antt =====
-- ui/src/pages/Results.tsx, the list of scan results: its state, the filters, the pages and what
-- is shown. The search box, the three filters and the page are the component's state variables.
pub mod Sorting
pub mod Filters
pub mod Pages
pub mod Session
pub mod Names
pub mod View
pub mod Detail
use drop_the_mic.Base.{
  ℕ, ◌+◌, ◌-◌, ◌*◌, ◌/◌, String, Bool, true, false, not, ◌&&◌, ◌||◌, Option, none, some, List, [],
  ◌∷◌, map, length, slice, filter, if◌then◌else◌, ltb, leb, eqb, ◌==◌,
}
use drop_the_mic.Base.Num.{ℤ, Number, sub_number, is_positive}
use drop_the_mic.Base.Sort.{sort}
use drop_the_mic.Base.Text.{◌<>◌, truthy, or_else, includes}
use drop_the_mic.Base.Text.Decimal.{decimal}
use drop_the_mic.Api.{Summary, ChecklistResult}
use drop_the_mic.Badge.{Badge, Variant, info, neutral, pass, fail}
use drop_the_mic.Format.{time_ago, format_duration}

abbrev pub page_size : ℕ
page_size = 20

pub record State : Type 0 where
  pub selected : Option ChecklistResult
  pub search : String
  pub filter_policy : String
  pub filter_verdict : String
  pub filter_type : String
  pub page : ℕ

abbrev pub initial : State
initial = record {
  selected = none;
  search = "";
  filter_policy = "";
  filter_verdict = "";
  filter_type = "";
  page = 0;
}

-- The comparator `time(b) - time(a)` is positive.
unfoldable pub is_older : (String → Number) → ChecklistResult → ChecklistResult → Bool
is_older parse_date a b = is_positive (
    sub_number (parse_date b.metadata.creation_timestamp)
      (parse_date a.metadata.creation_timestamp))

unfoldable pub matches_search : (String → String) → String → ChecklistResult → Bool
matches_search lower search r =
    let q = lower search in
    includes (lower r.metadata.name) q || includes (lower r.spec.policy_ref) q

-- What the verdict filter asks of a summary; without a summary the test is false.
summary_passes : String → Summary → Bool
summary_passes verdict s =
    if verdict == "PASS"
    then eqb s.fail 0 && eqb s.warn 0
    else if verdict == "FAIL"
    then ltb 0 s.fail
    else ltb 0 s.warn && eqb s.fail 0

unfoldable pub matches_verdict : String → ChecklistResult → Bool
unfolding summary_passes
matches_verdict verdict r =
    if verdict == "PASS" || verdict == "FAIL" || verdict == "WARN"
    then elim r.spec.summary [ none ↦ false | some s ↦ summary_passes verdict s ]
    else true

-- `if (active) list = list.filter(p)`
abbrev narrow : Bool → (ChecklistResult → Bool) → List ChecklistResult → List ChecklistResult
narrow active p list = if active then filter p list else list

has_policy : String → ChecklistResult → Bool
has_policy policy r = r.spec.policy_ref == policy

has_type : String → ChecklistResult → Bool
has_type scan_type r = r.spec.scan_type == scan_type

-- The four filters, in the order of the code.
unfoldable pub apply_filters :
    (String → String) → State → List ChecklistResult → List ChecklistResult
unfolding has_policy has_type
apply_filters lower st l₀ =
    let l₁ = narrow (truthy st.search) (matches_search lower st.search) l₀ in
    let l₂ = narrow (truthy st.filter_policy) (has_policy st.filter_policy) l₁ in
    let l₃ = narrow (truthy st.filter_type) (has_type st.filter_type) l₂ in
    narrow (truthy st.filter_verdict) (matches_verdict st.filter_verdict) l₃

unfoldable pub filtered :
    (String → Number) → (String → String) → State → List ChecklistResult → List ChecklistResult
unfolding apply_filters
filtered parse_date lower st results = apply_filters lower st (sort (is_older parse_date) results)

-- `Math.ceil(n / PAGE_SIZE)`
unfoldable pub total_pages : ℕ → ℕ
total_pages n = (n + (page_size - 1)) / page_size

unfoldable pub paged {ℓ} : {A : Type ℓ} → ℕ → List A → List A
paged page list = slice list (page * page_size) ((page + 1) * page_size)

-- The toolbar and the buttons. The two page buttons stand in the pager, which is shown where there
-- is more than one page; a disabled button does nothing.
pub data Action : Type 0 where
  type_search choose_policy choose_type choose_verdict : String → Action
  previous next back : Action
  select : ChecklistResult → Action

unfoldable pub has_pager : ℕ → Bool
has_pager pages = ltb 1 pages

unfoldable pub previous_disabled : ℕ → Bool
previous_disabled page = eqb page 0

unfoldable pub next_disabled : ℕ → ℕ → Bool
next_disabled page pages = leb (pages - 1) page

-- `pages` is the number of pages on the screen on which the user acts.
unfoldable pub act : ℕ → State → Action → State
unfolding has_pager previous_disabled next_disabled
act pages st (type_search s) = record st { search = s; page = 0 }
act pages st (choose_policy s) = record st { filter_policy = s; page = 0 }
act pages st (choose_type s) = record st { filter_type = s; page = 0 }
act pages st (choose_verdict s) = record st { filter_verdict = s; page = 0 }
act pages st previous =
    if not (has_pager pages) || previous_disabled st.page
    then st
    else record st { page = st.page - 1 }
act pages st next =
    if not (has_pager pages) || next_disabled st.page pages
    then st
    else record st { page = st.page + 1 }
act pages st (select r) = record st { selected = some r }
act pages st back = record st { selected = none }
