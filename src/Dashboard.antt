-- ===== src/Dashboard.antt =====
-- ui/src/pages/Dashboard.tsx: the totals over all policies, the card of each policy, and the eight
-- latest results. Styling is left out. A width of
-- a bar is the fraction (part, whole) that the code multiplies by 100%.
pub mod Laws
pub mod Latest
use drop_the_mic.Base.{
  ℕ, ◌+◌, ◌*◌, ◌/◌, String, Bool, true, false, ◌&&◌, Option, none, some, List, [], ◌∷◌, ◌++◌, map,
  length, slice, if◌then◌else◌, ltb, eqb, ◌==◌,
}
use drop_the_mic.Base.Num.{ℤ, Number}
use drop_the_mic.Base.Sort.{sort}
use drop_the_mic.Base.Text.{◌<>◌, truthy, or_else}
use drop_the_mic.Base.Text.Decimal.{decimal}
use drop_the_mic.Api.{Summary, ChecklistPolicy, ChecklistResult}
use drop_the_mic.Badge.{Badge, Variant, verdict_badge}
use drop_the_mic.Format.{time_ago}
use drop_the_mic.HealthRing
use drop_the_mic.Policies.{of_status}
use drop_the_mic.Results.{is_older}
use drop_the_mic.Results.View.{count, text_of, type_badge}

pub record Aggregate : Type 0 where
  pub pass : ℕ
  pub warn : ℕ
  pub fail : ℕ

abbrev pub add_summary : Aggregate → Option Summary → Aggregate
add_summary acc none = acc
add_summary acc (some s) = record {
  pass = acc.pass + s.pass;
  warn = acc.warn + s.warn;
  fail = acc.fail + s.fail;
}

-- `policies.reduce(…, acc)`
unfoldable pub aggregate : Aggregate → List ChecklistPolicy → Aggregate
aggregate acc [] = acc
aggregate acc (p ∷ rest) = aggregate (add_summary acc (of_status (λ s. s.summary) p)) rest

unfoldable pub total_checks : ℕ → List ChecklistPolicy → ℕ
total_checks sum [] = sum
total_checks sum (p ∷ rest) = total_checks (sum + length p.spec.checks) rest

unfoldable pub latest_results : (String → Number) → List ChecklistResult → List ChecklistResult
latest_results parse_date results = slice (sort (is_older parse_date) results) 0 8

-- The parts of the bar of a policy; `none` where there is nothing to show.
abbrev pub bar_part : ℕ → ℕ → String → List ((ℕ × ℕ) × String)
bar_part n total color = if ltb 0 n then ((n, total), color) ∷ [] else []

unfoldable pub progress_bar : (pass warn fail : ℕ) → Option (List ((ℕ × ℕ) × String))
progress_bar pass warn fail =
    let total = pass + warn + fail in
    if eqb total 0
    then none
    else some (
        bar_part pass total "var(--success)"
        ++ (bar_part warn total "var(--warning)" ++ bar_part fail total "var(--danger)"))

abbrev status_badge : Option Summary → Badge
status_badge none = record { variant = Variant.neutral; text = "No data" }
status_badge (some s) =
    if eqb s.fail 0
    then record { variant = Variant.pass; text = "Healthy" }
    else record { variant = Variant.fail; text = decimal s.fail <> " failing" }

pub record PolicyCard : Type 0 where
  pub name : String
  pub status : Badge
  pub provider : String
  pub checks : String
  pub schedule : String
  pub bar : Option (List ((ℕ × ℕ) × String))
  pub last_scan : Option String

abbrev last_scan_text : (String → Number) → ℤ → Option String → Option String
last_scan_text parse_date now none = none
last_scan_text parse_date now (some s) =
    if truthy s then some ("Last scan: " <> time_ago parse_date now s) else none

unfoldable pub policy_card : (String → Number) → ℤ → ChecklistPolicy → PolicyCard
unfolding progress_bar
policy_card parse_date now p = record {
  name = p.metadata.name;
  status = status_badge (of_status (λ s. s.summary) p);
  provider = p.spec.llm.provider;
  checks = decimal (length p.spec.checks) <> " checks";
  schedule = p.spec.schedule.full_scan;
  bar = elim (of_status (λ s. s.summary) p) [
    | none ↦ none
    | some s ↦ progress_bar s.pass s.warn s.fail
  ];
  last_scan = last_scan_text parse_date now (of_status (λ s. s.last_full_scan_time) p);
}

pub record Scan : Type 0 where
  pub name : String
  pub policy : String
  pub scan_type : Badge
  pub pass : ℕ
  pub warn : ℕ
  pub fail : ℕ
  pub phase : String
  pub time : String

unfoldable pub recent_scan : (String → Number) → ℤ → ChecklistResult → Scan
recent_scan parse_date now r = record {
  name = r.metadata.name;
  policy = r.spec.policy_ref;
  scan_type = type_badge r.spec.scan_type;
  pass = count (λ s. s.pass) r.spec.summary;
  warn = count (λ s. s.warn) r.spec.summary;
  fail = count (λ s. s.fail) r.spec.summary;
  phase = or_else (text_of r.phase) "-";
  time = time_ago parse_date now r.metadata.creation_timestamp;
}

pub record Overview : Type 0 where
  pub policies : ℕ
  pub checks : ℕ
  pub totals : Aggregate
  pub ring : HealthRing.View
  pub cards : List PolicyCard
  pub view_all : Bool
  pub scans : List Scan

pub data Screen : Type 0 where
  loading empty : Screen
  overview : Overview → Screen

abbrev pub zeros : Aggregate
zeros = record { pass = 0; warn = 0; fail = 0 }

abbrev ring_of : Aggregate → HealthRing.View
ring_of agg = HealthRing.view agg.pass agg.warn agg.fail

-- `none` stands for a query that is loading.
unfoldable pub screen :
    (String → Number) → ℤ → Option (List ChecklistPolicy) → Option (List ChecklistResult) → Screen
screen parse_date now none results = loading
screen parse_date now (some policies) none = loading
screen parse_date now (some policies) (some results) =
    if ltb 0 (length policies)
    then overview (record {
      policies = length policies;
      checks = total_checks 0 policies;
      totals = aggregate zeros policies;
      ring = ring_of (aggregate zeros policies);
      cards = map (policy_card parse_date now) policies;
      view_all = ltb 8 (length results);
      scans = map (recent_scan parse_date now) (latest_results parse_date results);
    })
    else empty
