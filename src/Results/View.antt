-- ===== src/Results/View.antt =====
-- What the list of results shows: the cells of each row, the empty state, and the pager. Styling
-- and tooltips are left out.
use drop_the_mic.Base.{
  ℕ, ◌+◌, String, Bool, Option, none, some, List, map, length, eqb, if◌then◌else◌, ◌==◌, ◌&&◌,
}
use drop_the_mic.Base.Num.{ℤ, Number, sub_number}
use drop_the_mic.Base.Text.{◌<>◌, truthy, or_else}
use drop_the_mic.Base.Text.Decimal.{decimal}
use drop_the_mic.Api.{Summary, ChecklistResult}
use drop_the_mic.Badge.{Badge, Variant, info, neutral}
use drop_the_mic.Format.{time_ago, format_duration}
use drop_the_mic.Results.{
  State, filtered, total_pages, paged, has_pager, previous_disabled, next_disabled,
}

pub record Row : Type 0 where
  pub name : String
  pub policy : String
  pub scan_type : Badge
  pub pass : ℕ
  pub warn : ℕ
  pub fail : ℕ
  pub phase : Badge
  pub duration : String
  pub time : String

-- `summary?.pass || 0`
abbrev pub count : (Summary → ℕ) → Option Summary → ℕ
count field none = 0
count field (some s) = field s

abbrev pub text_of : Option String → String
text_of none = ""
text_of (some s) = s

unfoldable pub duration_of : (String → Number) → ChecklistResult → String
duration_of parse_date r =
    if truthy (text_of r.spec.completed_at) && truthy r.spec.started_at
    then format_duration
        (sub_number (parse_date (text_of r.spec.completed_at)) (parse_date r.spec.started_at))
    else "-"

unfoldable pub type_badge : String → Badge
type_badge scan_type = record {
  variant = if scan_type == "FullScan" then info else neutral;
  text = scan_type;
}

phase_badge : Option String → Badge
phase_badge phase = record {
  variant =
      if text_of phase == "Completed"
      then Variant.pass
      else if text_of phase == "Failed"
      then Variant.fail
      else neutral;
  text = or_else (text_of phase) "-";
}

unfoldable pub row : (String → Number) → ℤ → ChecklistResult → Row
unfolding duration_of type_badge phase_badge
row parse_date now r = record {
  name = r.metadata.name;
  policy = r.spec.policy_ref;
  scan_type = type_badge r.spec.scan_type;
  pass = count (λ s. s.pass) r.spec.summary;
  warn = count (λ s. s.warn) r.spec.summary;
  fail = count (λ s. s.fail) r.spec.summary;
  phase = phase_badge r.phase;
  duration = duration_of parse_date r;
  time = time_ago parse_date now r.metadata.creation_timestamp;
}

pub record Pager : Type 0 where
  pub text : String
  pub previous_disabled : Bool
  pub next_disabled : Bool

unfoldable pub pager : ℕ → ℕ → Option Pager
pager page pages =
    if has_pager pages
    then some (record {
      text = "Page " <> decimal (page + 1) <> " of " <> decimal pages;
      previous_disabled = previous_disabled page;
      next_disabled = next_disabled page pages;
    })
    else none

pub data Content : Type 0 where
  empty : (title description : String) → Content
  table : List Row → Option Pager → Content

pub data Screen : Type 0 where
  loading : Screen
  detail : ChecklistResult → Screen
  list : (counted : String) → Content → Screen

unfoldable pub content :
    (String → Number) → ℤ → ℕ → List ChecklistResult → List ChecklistResult → Content
content parse_date now page results shown =
    if eqb (length shown) 0
    then if eqb (length results) 0
      then empty "No results yet" "Results will appear here after a scan runs."
      else empty "No matching results" "Try adjusting your filters."
    else table (map (row parse_date now) (paged page shown))
        (pager page (total_pages (length shown)))

-- `if (selected) return <ResultDetail …>`
abbrev pub or_detail : Option ChecklistResult → Screen → Screen
or_detail none page = page
or_detail (some r) page = detail r

pub subtitle : ℕ → String
subtitle n = decimal n <> " scan " <> (if eqb n 1 then "result" else "results")

-- `results` is the query's data, and `none` while it is loading.
unfoldable pub screen :
    (String → Number) → (String → String) → ℤ → State → Option (List ChecklistResult) → Screen
unfolding content subtitle
screen parse_date lower now st none = loading
screen parse_date lower now st (some results) =
    let shown = filtered parse_date lower st results in
    or_detail st.selected
      (list (subtitle (length shown)) (content parse_date now st.page results shown))
