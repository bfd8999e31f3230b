-- ===== src/Policies/View.antt =====
-- ui/src/pages/Policies.tsx, what the page shows: the rows of the list, and the detail of the policy
-- that is selected. Styling is left out. `policies` is the query's data, and `none` while it is
-- loading.
use drop_the_mic.Base.{
  ℕ, String, Bool, ◌||◌, Option, none, some, List, [], ◌∷◌, map, length, if◌then◌else◌, ltb, eqb,
}
use drop_the_mic.Base.Num.{ℤ, Number}
use drop_the_mic.Base.Text.{◌<>◌, truthy, or_else, join}
use drop_the_mic.Base.Text.Decimal.{decimal}
use drop_the_mic.Api.{Summary, CheckItem, ChecklistPolicy}
use drop_the_mic.Badge.{Badge, Variant, severity_badge}
use drop_the_mic.Format.{time_ago}
use drop_the_mic.Policies.{of_status, ConditionBadge, condition_badge, Health, health, State}

-- `text ? timeAgo(text) : d`
abbrev ago_or : (String → Number) → ℤ → String → Option String → String
ago_or parse_date now d none = d
ago_or parse_date now d (some s) = if truthy s then time_ago parse_date now s else d

pub record Row : Type 0 where
  pub name : String
  pub namespace : Badge
  pub provider : String
  pub checks : ℕ
  pub schedule : String
  pub last_scan : String
  pub condition : Option ConditionBadge
  pub counts : Option String

abbrev counted : String → ℕ → String
counted letter n = if ltb 0 n then " " <> decimal n <> letter else ""

-- The counts stand beside the condition where there are warnings or failures.
abbrev counts_of : Option Summary → Option String
counts_of none = none
counts_of (some s) =
    if ltb 0 s.warn || ltb 0 s.fail
    then some (decimal s.pass <> "P" <> counted "W" s.warn <> counted "F" s.fail)
    else none

unfoldable pub row : (String → Number) → ℤ → ChecklistPolicy → Row
unfolding condition_badge
row parse_date now p = record {
  name = p.metadata.name;
  namespace = record { variant = Variant.neutral; text = p.metadata.namespace };
  provider = p.spec.llm.provider;
  checks = length p.spec.checks;
  schedule = p.spec.schedule.full_scan;
  last_scan = ago_or parse_date now "-" (of_status (λ s. s.last_full_scan_time) p);
  condition = condition_badge p;
  counts = counts_of (of_status (λ s. s.summary) p);
}

abbrev suffix : Option String → String
suffix none = ""
suffix (some s) = if truthy s then " (" <> s <> ")" else ""

-- `x || d` for an optional text.
abbrev text_or : String → Option String → String
text_or d none = d
text_or d (some s) = or_else s d

-- `n || 5`: 0 is false as well.
abbrev threshold : Option ℕ → ℕ
threshold none = 5
threshold (some n) = if eqb n 0 then 5 else n

abbrev namespaces : Option (List String) → String
namespaces none = "All"
namespaces (some l) = or_else (join ", " l) "All"

pub record CheckRow : Type 0 where
  pub id : String
  pub severity : Badge
  pub description : String

check_row : CheckItem → CheckRow
check_row c = record {
  id = c.id;
  severity = severity_badge c.severity;
  description = c.description;
}

pub record Detail : Type 0 where
  pub title : String
  pub subtitle : String
  pub run_button : String
  pub info : List (String × String)
  pub schedule : List (String × String)
  pub summary : Option Summary
  pub checks : List CheckRow
  pub health : Health

unfoldable pub policy_detail : (String → Number) → ℤ → (running : Bool) → ChecklistPolicy → Detail
unfolding check_row health
policy_detail parse_date now running p = record {
  title = p.metadata.name;
  subtitle = p.metadata.namespace;
  run_button = if running then "Running..." else "Run Now";
  info =
      ("Provider", p.spec.llm.provider <> suffix p.spec.llm.model)
      ∷ ("Secret", p.spec.llm.secret_ref.name)
      ∷ ("Namespaces", namespaces p.spec.target_namespaces)
      ∷ ("Escalation", decimal (threshold p.spec.escalation_threshold) <> " failures")
      ∷ [];
  schedule =
      ("Full Scan", p.spec.schedule.full_scan)
      ∷ ("Rescan", text_or "Disabled" p.spec.schedule.failed_rescan)
      ∷ ("Last Full Scan", ago_or parse_date now "Never" (of_status (λ s. s.last_full_scan_time) p))
      ∷ ("Last Rescan", ago_or parse_date now "Never" (of_status (λ s. s.last_rescan_time) p))
      ∷ [];
  summary = of_status (λ s. s.summary) p;
  checks = map check_row p.spec.checks;
  health = health p;
}

pub data Screen : Type 0 where
  loading : Screen
  detail : Detail → Screen
  empty : (subtitle : String) → Screen
  table : (subtitle : String) → List Row → Screen

abbrev subtitle : ℕ → String
subtitle n = decimal n <> " checklist " <> (if eqb n 1 then "policy" else "policies")

abbrev list_of : (String → Number) → ℤ → List ChecklistPolicy → Screen
list_of parse_date now policies =
    if eqb (length policies) 0
    then empty (subtitle (length policies))
    else table (subtitle (length policies)) (map (row parse_date now) policies)

unfoldable pub screen :
    (String → Number) → ℤ → (running : Bool) → State → Option (List ChecklistPolicy) → Screen
screen parse_date now running st none = loading
screen parse_date now running st (some policies) = elim st.selected [
  | none ↦ list_of parse_date now policies
  | some p ↦ detail (policy_detail parse_date now running p)
]
