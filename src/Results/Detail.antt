-- ===== src/Results/Detail.antt =====
-- ui/src/pages/Results.tsx, the detail of one result: the set of the checks that are expanded, the
-- button for all of them, and what is shown of each check. Tooltips and styling are left out;
-- `local_date` stands for `new Date(text).toLocaleString()` and `upper` for `toUpperCase`.
pub mod Expanding
use drop_the_mic.Base.{
  ℕ, ◌≡◌, refl, String, Bool, true, false, not, Option, none, some, List, [], ◌∷◌, map, length, eqb,
  ltb, if◌then◌else◌, ◌==◌,
}
use drop_the_mic.Base.Num.{Number}
use drop_the_mic.Base.Sets.{has, without, add, set_of}
use drop_the_mic.Base.Text.{◌<>◌, truthy, or_else}
use drop_the_mic.Base.Text.Decimal.{decimal}
use drop_the_mic.Api.{Json, Summary, Verdict, CheckResult, ChecklistResult, ToolCall}
use drop_the_mic.Badge.{Badge, Variant, verdict_badge, severity_badge}
use drop_the_mic.Results.View.{text_of, duration_of, type_badge}

abbrev pub verdict_text : Verdict → String
verdict_text Verdict.pass = "PASS"
verdict_text Verdict.warn = "WARN"
verdict_text Verdict.fail = "FAIL"

-- `result.spec.checks?.map(c => c.id) || []`
abbrev pub check_ids : ChecklistResult → List String
check_ids r = elim r.spec.checks [ none ↦ [] | some checks ↦ map (λ c. c.id) checks ]

-- `result.spec.checks?.length || 0`
abbrev pub check_count : ChecklistResult → ℕ
check_count r = elim r.spec.checks [ none ↦ 0 | some checks ↦ length checks ]

unfoldable pub toggle : String → List String → List String
toggle id expanded = if has expanded id then without id expanded else add id expanded

abbrev pub all_expanded : ChecklistResult → List String → Bool
all_expanded r expanded = eqb (length expanded) (check_count r)

unfoldable pub expand_all : ChecklistResult → List String → List String
expand_all r expanded = if all_expanded r expanded then [] else set_of (check_ids r)

unfoldable pub expand_label : ChecklistResult → List String → String
expand_label r expanded = if all_expanded r expanded then "Collapse All" else "Expand All"

-- The colors of `VerdictDot`.
dot_colors : String → Option String
dot_colors verdict =
    if verdict == "PASS"
    then some "var(--success)"
    else if verdict == "WARN"
    then some "var(--warning)"
    else if verdict == "FAIL"
    then some "var(--danger)"
    else none

pub record Dot : Type 0 where
  pub background : String
  pub shadow : String

unfoldable pub verdict_dot : String → Dot
unfolding dot_colors
verdict_dot verdict = record {
  background = elim (dot_colors verdict) [ none ↦ "var(--text-tertiary)" | some c ↦ c ];
  shadow = "0 0 6px " <> elim (dot_colors verdict) [ none ↦ "transparent" | some c ↦ c ];
}

-- What is shown of a check that is expanded. The tool calls are absent if there is none.
pub record Body : Type 0 where
  pub reasoning : String
  pub tool_calls : Option (List ToolCall)
  pub failing_since : Option String

pub record CheckCard : Type 0 where
  pub dot : Dot
  pub id : String
  pub severity : Option Badge
  pub description : String
  pub verdict : Badge
  pub body : Option Body

shown_calls : Option (Option (List ToolCall)) → Option (List ToolCall)
shown_calls (some (some (c ∷ calls))) = some (c ∷ calls)
shown_calls _ = none

-- `text && f(text)` for an optional text.
abbrev if_text {ℓ} : {A : Type ℓ} → (String → A) → Option String → Option A
if_text f none = none
if_text f (some s) = if truthy s then some (f s) else none

body : (String → String) → CheckResult → Body
unfolding shown_calls
body local_date check = record {
  reasoning = check.reasoning;
  tool_calls = shown_calls check.evidence;
  failing_since = if_text (λ s. "Failing since: " <> local_date s) check.failed_since;
}

unfoldable pub check_card :
    (String → String) → (String → String) → List String → CheckResult → CheckCard
unfolding body verdict_dot
check_card upper local_date expanded check = record {
  dot = verdict_dot (verdict_text check.verdict);
  id = check.id;
  severity = if_text severity_badge check.severity;
  description = check.description;
  verdict = verdict_badge upper (verdict_text check.verdict);
  body = if has expanded check.id then some (body local_date check) else none;
}

pub record Header : Type 0 where
  pub title : String
  pub policy : String
  pub scan_type : Badge
  pub phase : Badge
  pub duration : String
  pub summary : Option Summary

header : (String → Number) → ChecklistResult → Header
header parse_date r = record {
  title = r.metadata.name;
  policy = "Policy: " <> r.spec.policy_ref;
  scan_type = type_badge r.spec.scan_type;
  phase = record {
    variant = if text_of r.phase == "Completed" then Variant.pass else Variant.fail;
    text = or_else (text_of r.phase) "-";
  };
  duration = "Duration: " <> duration_of parse_date r;
  summary = r.spec.summary;
}

pub record Detail : Type 0 where
  pub header : Header
  pub button : String
  pub cards : List CheckCard

unfoldable pub result_detail :
    (String → Number)
    → (String → String)
    → (String → String)
    → ChecklistResult
    → List String
    → Detail
unfolding header expand_label check_card
result_detail parse_date upper local_date r expanded = record {
  header = header parse_date r;
  button = expand_label r expanded;
  cards = elim r.spec.checks [
    | none ↦ []
    | some checks ↦ map (check_card upper local_date expanded) checks
  ];
}
