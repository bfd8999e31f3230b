-- ===== src/Tests.antt =====
-- Concrete inputs on which the theorems of the other modules are applied: a few resources, two
-- servers, and dates that are their own number of milliseconds.
pub mod Listing
pub mod Session
pub mod Editing
pub mod Policies
pub mod Selection
pub mod Toasts
pub mod Visits
pub mod Settings
pub mod Forms
pub mod Parts
pub mod Operator
pub mod Sessions
pub mod Reconciling
pub mod Stored
pub mod Scans
use drop_the_mic.Base.{ℕ, zero, suc, String, Option, none, some, List, [], ◌∷◌}
use drop_the_mic.Base.Num.{Number, int, pos}
use drop_the_mic.Base.Text.Decimal.{read_digits}
use drop_the_mic.Api.{
  Json, Metadata, Summary, CheckResult, ResultSpec, ChecklistResult, Verdict, CheckItem,
  ChecklistPolicy, PolicySpec, str,
}
use drop_the_mic.Client.{Server, Response, Browser}

abbrev pub millis : String → ℕ
millis s = (read_digits 0 s).value

abbrev pub parse_millis : String → Number
parse_millis s = int (pos (millis s))

abbrev pub same : String → String
same s = s

abbrev pub check : String → Verdict → CheckResult
check id verdict = record {
  id = id;
  description = "";
  verdict = verdict;
  reasoning = "";
  severity = none;
  failed_since = none;
  evidence = none;
}

abbrev pub scan : String → String → String → Summary → ChecklistResult
scan name policy created summary = record {
  metadata = record { name = name; namespace = "dtm"; creation_timestamp = created };
  spec = record {
    policy_ref = policy;
    scan_type = "FullScan";
    started_at = created;
    completed_at = none;
    checks = some (check "dns" Verdict.pass ∷ check "nodes" Verdict.fail ∷ []);
    summary = some summary;
  };
  phase = some "Completed";
}

abbrev pub good_summary : Summary
good_summary = record { total = 2; pass = 2; warn = 0; fail = 0 }

abbrev pub bad_summary : Summary
bad_summary = record { total = 2; pass = 1; warn = 0; fail = 1 }

abbrev pub good : ChecklistResult
good = scan "nightly-1" "nightly" "100" good_summary

abbrev pub bad : ChecklistResult
bad = scan "weekly-1" "weekly" "200" bad_summary

abbrev pub scans : List ChecklistResult
scans = good ∷ bad ∷ []

abbrev pub copies : ℕ → List ChecklistResult
copies zero = []
copies (suc n) = good ∷ copies n

abbrev pub answer : ℕ → Server
answer status call =
    some (record { status = status; status_text = ""; json = some (str "token"); error = none })

-- The messages of a browser for a body that is no JSON, and for one without fields.
abbrev pub unusable : Option Json → String
unusable none = "Unexpected token"
unusable (some value) = "null has no properties"

abbrev pub signed_in : Browser
signed_in = record { token = some "t"; href = "/" }

abbrev pub checks : List CheckItem
checks =
    record { id = "check-1"; description = "pods run"; severity = "warning" }
    ∷ record { id = "check-2"; description = ""; severity = "critical" }
    ∷ record { id = "check-3"; description = "dns works"; severity = "info" }
    ∷ []

abbrev pub policy : ChecklistPolicy
policy = record {
  metadata = record { name = "nightly"; namespace = "dtm"; creation_timestamp = "100" };
  spec = record {
    schedule = record { full_scan = "0 1 * * *"; failed_rescan = none };
    llm = record {
      provider = "claude";
      model = some "m";
      secret_ref = record { name = "dtm-llm-secret"; key = some "api-key" };
    };
    checks = record { id = "check-1"; description = "pods run"; severity = "warning" } ∷ [];
    target_namespaces = none;
    notification = none;
    escalation_threshold = some 3;
  };
  status = none;
}
