-- ===== src/Engine.antt =====
-- operator/internal/engine/engine.go: the scan of the checks of a policy, with the types of
-- operator/api/v1alpha1 and operator/internal/engine/llm/adapter.go that it uses. `W` is the state of
-- the world: the cluster, the LLM, the clock, and what the tools have answered in this scan. The adapter
-- and the tools are operations on it (an interface, as `llm.Adapter` is), and `hash` stands for the hash
-- of the snapshot. The definitions of the tools, which are the same in every request, belong to the
-- adapter. A text is also a value of raw JSON.
pub mod Scan
pub mod Answers
pub mod Summaries
pub mod Reuse
use mathlib.Core.Option.{Option, none, some}
use drop_the_mic.Base.{
  ℕ, zero, suc, ◌+◌, ◌-◌, ◌%◌, String, Bool, true, false, not, ◌&&◌, List, [], ◌∷◌, ◌++◌, map,
  length, take, drop, if◌then◌else◌, ltb, eqb, ◌==◌,
}
use drop_the_mic.Base.Num.{ℤ, pos, negsuc}
use drop_the_mic.Base.Maps.{Map, lookup, store}
use drop_the_mic.Base.Text.{◌<>◌}
use drop_the_mic.Alerts.{next_int32}

-- `(a, err)`
pub data Answer {ℓ} (A : Type ℓ) : Type ℓ where
  ok : A → Answer A
  failed : (message : String) → Answer A

pub record CheckItem : Type 0 where
  pub id : String
  pub description : String
  pub severity : String

pub record ToolCallRecord : Type 0 where
  pub tool_name : String
  pub input : String
  pub output : String

pub record CheckResult : Type 0 where
  pub id : String
  pub description : String
  pub verdict : String
  pub reasoning : String
  pub evidence : Option (List ToolCallRecord)
  pub failed_since : Option ℕ
  pub severity : String

pub record ScanSummary : Type 0 where
  pub total : ℤ
  pub pass : ℤ
  pub warn : ℤ
  pub fail : ℤ

pub data ScanType : Type 0 where
  unset full_scan rescan : ScanType

pub record ResultSpec : Type 0 where
  pub policy_ref : String
  pub scan_type : ScanType
  pub started_at : ℕ
  pub completed_at : Option ℕ
  pub checks : List CheckResult
  pub summary : Option ScanSummary

pub record VerifyRequest : Type 0 where
  pub check_id : String
  pub description : String
  pub namespaces : List String
  pub snapshot : String

pub record VerifyResponse : Type 0 where
  pub verdict : String
  pub reasoning : String
  pub tool_calls : List ToolCallRecord

pub record BatchVerifyRequest : Type 0 where
  pub checks : List VerifyRequest
  pub namespaces : List String
  pub snapshot : String

pub record Adapter (W : Type 0) : Type 0 where
  pub verify : VerifyRequest → W → Answer VerifyResponse × W
  pub batch_verify : BatchVerifyRequest → W → Answer (List VerifyResponse) × W
  pub call_tool : (name : String) → W → Answer String × W
  pub time_now : W → ℕ × W
  pub hash : String → String

-- What of a policy a scan reads.
pub record Policy : Type 0 where
  pub name : String
  pub namespace : String
  pub target_namespaces : List String
  pub checks : List CheckItem

pub record Engine : Type 0 where
  pub snapshot_hashes : Map String
  pub last_results : Map (Map String)

-- `New`
abbrev pub new : Engine
new = record { snapshot_hashes = []; last_results = [] }

abbrev pub batch_size : ℕ
batch_size = 5

-- `int32(n)`
abbrev pub to_int32 : ℕ → ℤ
to_int32 n = let m = n % 4294967296 in if ltb m 2147483648 then pos m else negsuc (4294967295 - m)

abbrev pub count_verdict : ScanSummary → String → ScanSummary
count_verdict s verdict =
    if verdict == "PASS"
    then record s { pass = next_int32 s.pass }
    else if verdict == "WARN"
    then record s { warn = next_int32 s.warn }
    else if verdict == "FAIL"
    then record s { fail = next_int32 s.fail }
    else s

abbrev pub count_verdicts : ScanSummary → List CheckResult → ScanSummary
count_verdicts s [] = s
count_verdicts s (r ∷ rest) = count_verdicts (count_verdict s r.verdict) rest

abbrev pub compute_summary : List CheckResult → ScanSummary
compute_summary results =
    count_verdicts
      (record { total = to_int32 (length results); pass = pos 0; warn = pos 0; fail = pos 0 })
      results

abbrev pub convert_evidence : List ToolCallRecord → Option (List ToolCallRecord)
convert_evidence [] = none
convert_evidence (t ∷ rest) = some (t ∷ rest)

abbrev pub result_of :
    CheckItem → (verdict reasoning : String) → Option (List ToolCallRecord) → CheckResult
result_of check verdict reasoning evidence = record {
  id = check.id;
  description = check.description;
  verdict = verdict;
  reasoning = reasoning;
  evidence = evidence;
  failed_since = none;
  severity = check.severity;
}

abbrev pub answered : CheckItem → VerifyResponse → CheckResult
answered check resp = result_of check resp.verdict resp.reasoning (convert_evidence resp.tool_calls)

-- The results of one check, and of a batch, from the adapter's answer.
abbrev pub result_of_answer : CheckItem → Answer VerifyResponse → CheckResult
result_of_answer check (ok resp) = answered check resp
result_of_answer check (failed e) = result_of check "FAIL" ("LLM API error: " <> e) none

abbrev pub pair_up : List CheckItem → List VerifyResponse → List CheckResult
pair_up [] responses = []
pair_up (check ∷ batch) [] =
    result_of check "FAIL" "No response from batch for this check." none ∷ pair_up batch []
pair_up (check ∷ batch) (resp ∷ responses) = answered check resp ∷ pair_up batch responses

abbrev pub results_of_answer : List CheckItem → Answer (List VerifyResponse) → List CheckResult
results_of_answer batch (ok responses) = pair_up batch responses
results_of_answer batch (failed e) =
    map (λ check. result_of check "FAIL" ("LLM batch API error: " <> e) none) batch

-- `collectSnapshot`, for the tools in their order; one that fails is left out.
abbrev pub snapshot_tools : List String
snapshot_tools = "list_pods" ∷ "list_nodes" ∷ "get_events" ∷ []

abbrev pub section_of : String → Answer String → String
section_of name (ok result) = "### " <> name <> "\n" <> result <> "\n\n"
section_of name (failed e) = ""

abbrev pub verdict_map : Map String → List CheckResult → Map String
verdict_map m [] = m
verdict_map m (r ∷ rest) = verdict_map (store r.id r.verdict m) rest

abbrev pub is_known : Option String → Bool
is_known none = false
is_known (some v) = true

abbrev pub all_known : List CheckItem → Map String → Bool
all_known [] prev = true
all_known (check ∷ rest) prev = is_known (lookup check.id prev) && all_known rest prev

-- Go's `m[key]`, where a key that is missing has the empty text.
abbrev pub text_or_empty : Option String → String
text_or_empty none = ""
text_or_empty (some s) = s

abbrev pub reused : Map String → CheckItem → CheckResult
reused prev check =
    result_of check (text_or_empty (lookup check.id prev))
      "Snapshot unchanged — previous verdict reused." none

abbrev pub policy_key : Policy → String
policy_key policy = policy.namespace <> "/" <> policy.name

abbrev pub is_some_map : Option (Map String) → Bool
is_some_map none = false
is_some_map (some m) = true

abbrev pub map_or_empty : Option (Map String) → Map String
map_or_empty none = []
map_or_empty (some m) = m

-- Whether the previous verdicts are reused.
unfoldable pub is_reused : (current : String) → Engine → Policy → List CheckItem → Bool
is_reused current eng policy checks =
    let prev = lookup (policy_key policy) eng.last_results in
    text_or_empty (lookup (policy_key policy) eng.snapshot_hashes) == current
    && is_some_map prev
    && ltb 0 (length checks)
    && all_known checks (map_or_empty prev)

abbrev pub spec_of : Policy → (started_at completed_at : ℕ) → List CheckResult → ResultSpec
spec_of policy started_at completed_at results = record {
  policy_ref = policy.name;
  scan_type = unset;
  started_at = started_at;
  completed_at = some completed_at;
  checks = results;
  summary = some (compute_summary results);
}

abbrev pub remembered : (current : String) → Policy → List CheckResult → Engine → Engine
remembered current policy results eng = record {
  snapshot_hashes = store (policy_key policy) current eng.snapshot_hashes;
  last_results = store (policy_key policy) (verdict_map [] results) eng.last_results;
}
