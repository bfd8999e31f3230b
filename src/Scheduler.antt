-- ===== src/Scheduler.antt =====
-- operator/internal/scheduler/scheduler.go: the full scans and the rescans of a policy, which a scheduler
-- keeps as it was when it was made. The API server, the clock and the notifiers are operations on the
-- world `W`, and so are those of the engine; `set_condition` is apimachinery's
-- `meta.SetStatusCondition`. A condition is the one that the client is sent. The owner of a result is
-- kept by its name. Errors that are only logged are left out.
pub mod Record
pub mod Status
pub mod Scans
pub mod Rescans
pub mod Health
use mathlib.Core.Option.{Option, none, some}
use drop_the_mic.Base.{
  ℕ, zero, suc, String, Bool, true, false, not, List, [], ◌∷◌, filter, length, eqb, if◌then◌else◌,
  ◌==◌,
}
use drop_the_mic.Base.Num.{ℤ, pos, negsuc}
use drop_the_mic.Base.Sets.{has}
use drop_the_mic.Base.Text.{◌<>◌}
use drop_the_mic.Base.Text.Decimal.{decimal}
use drop_the_mic.Api.{Condition}
use drop_the_mic.Alerts.{
  Store, Transition, CheckState, record_fail, record_pass, get_state, failed_checks,
}
use drop_the_mic.Engine.{
  Adapter, Answer, ok, failed, CheckItem, CheckResult, ScanSummary, ScanType, unset, full_scan,
  rescan, ResultSpec, Policy, Engine,
}
use drop_the_mic.Engine.Scan.{run_checks}

-- notify.Event
pub record Event : Type 0 where
  pub policy_ref : String
  pub check_id : String
  pub description : String
  pub severity : String
  pub verdict : String
  pub reasoning : String
  pub transition : Transition

pub record ChecklistResult : Type 0 where
  pub name : String
  pub namespace : String
  pub policy_label : String
  pub owner : String
  pub spec : ResultSpec
  pub phase : String

pub record PolicyStatus : Type 0 where
  pub last_full_scan_time : Option ℕ
  pub last_rescan_time : Option ℕ
  pub last_result_name : String
  pub summary : Option ScanSummary
  pub conditions : List Condition

pub record Cluster (W : Type 0) : Type 0 where
  pub adapter : Adapter W
  pub dispatch : Event → W → W
  pub create : ChecklistResult → W → Option String × W
  pub get_status : (namespace name : String) → W → Answer PolicyStatus × W
  pub update_status : (namespace name : String) → PolicyStatus → W → Option String × W
  pub set_condition : Condition → List Condition → List Condition
  pub timestamp : ℕ → String
  pub format_time : ℕ → String
  pub to_lower : String → String

-- An `error` is its text, or `none` for nil.

-- What a scheduler shares and changes.
pub record State (W : Type 0) : Type 0 where
  pub alerts : Store
  pub engine : Engine
  pub world : W

abbrev pub scan_type_text : ScanType → String
scan_type_text unset = ""
scan_type_text full_scan = "FullScan"
scan_type_text rescan = "Rescan"

-- `%d`
abbrev pub decimal_ℤ : ℤ → String
decimal_ℤ (pos n) = decimal n
decimal_ℤ (negsuc n) = "-" <> decimal (suc n)

abbrev pub is_positive : ℤ → Bool
is_positive (pos n) = not (eqb n 0)
is_positive (negsuc n) = false

abbrev pub summary_text : ScanSummary → String
summary_text s =
    "Last scan: "
    <> decimal_ℤ s.pass
    <> " pass, "
    <> decimal_ℤ s.warn
    <> " warn, "
    <> decimal_ℤ s.fail
    <> " fail"

abbrev pub since_of : Option CheckState → CheckResult → CheckResult
since_of none check = check
since_of (some cs) check = record check { failed_since = some cs.failed_since }

-- The summary is a pointer; `RunChecks` never leaves it nil.
abbrev pub summary_or_zero : Option ScanSummary → ScanSummary
summary_or_zero none = record { total = pos 0; pass = pos 0; warn = pos 0; fail = pos 0 }
summary_or_zero (some s) = s

-- The checks of a rescan: those of the policy that the store lists as failing, in the policy's order.
unfoldable pub checks_to_rescan : Policy → Store → List CheckItem
checks_to_rescan policy alerts =
    let failed_ids = failed_checks policy.name alerts in
    filter (λ (check : CheckItem). has failed_ids check.id) policy.checks
