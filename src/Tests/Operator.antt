-- ===== src/Tests/Operator.antt =====
-- A store with a history, and scans of a cluster whose state is its clock: "dns" fails, and the rest passes.
use drop_the_mic.Base.{
  ℕ, suc, ◌≤◌, ◌≡◌, refl, String, Bool, true, false, Option, none, some, List, [], ◌∷◌, map, filter,
  if◌then◌else◌, ◌==◌, ◌||◌, eq_iff, eq_refl, Bool-cases, inl, inr, arith,
}
use drop_the_mic.Base.Num.{pos}
use drop_the_mic.Base.Text.Decimal.{decimal}
use drop_the_mic.Base.Sets.{has, IsDistinct}
use drop_the_mic.Api.{Condition, ChecklistPolicy}
use drop_the_mic.Policies.{error, health}
use drop_the_mic.Tests.{policy}
use drop_the_mic.Alerts.{unknown, escalated, get_or_create, new_store, failed_checks}
use drop_the_mic.Alerts.History.{Observation, after}
use drop_the_mic.Alerts.States.{get_or_create-after}
use drop_the_mic.Alerts.Lifecycle.{IsTrail, sent, IsTrail-sent}
use drop_the_mic.Alerts.Failing.{has-failed_checks-after}
use drop_the_mic.Engine.{
  ok, failed, CheckItem, CheckResult, ResultSpec, full_scan, VerifyRequest, VerifyResponse, Adapter,
  Policy, new, compute_summary,
}
use drop_the_mic.Engine.Scan.{run_checks}
use drop_the_mic.Engine.Answers.{checks_of, checks_of-run_checks}
use drop_the_mic.Engine.Summaries.{compute_summary_lem}
use drop_the_mic.Engine.Reuse.{results_of, verdict_in, looked_at, run_checks-unchanged}
use drop_the_mic.Scheduler.{Cluster, State, PolicyStatus, checks_to_rescan}
use drop_the_mic.Scheduler.Status.{new_status}
use drop_the_mic.Scheduler.Rescans.{after_scans, log_of, failing_in, checks_to_rescan-after_scans}
use drop_the_mic.Scheduler.Health.{IsKinded, IsSetter, of_kind, health-new_status}

abbrev seen : String → Bool → ℕ → Observation
seen check fails now = record { policy = "nightly"; check = check; failed = fails; now = now }

abbrev history : List Observation
history =
    seen "dns" true 40
    ∷ seen "pods" true 35
    ∷ seen "dns" true 30
    ∷ seen "dns" true 20
    ∷ seen "dns" false 15
    ∷ seen "dns" true 10
    ∷ []

get_or_create-after_example :
    ((get_or_create "nightly" "dns" (after history (new_store (pos 2)))).state ≡ escalated)
    × (1 ≤ 3
        → (get_or_create "nightly" "dns" (after history (new_store (pos 2)))).failed_since ≡ 20)
get_or_create-after_example =
    get_or_create-after "nightly" "dns" history 2 (omega arith) (omega arith)

IsTrail-sent_example :
    IsTrail unknown
      (get_or_create "nightly" "dns" (after history (new_store (pos 2)))).state
      (sent "nightly" "dns" history (new_store (pos 2)))
IsTrail-sent_example = IsTrail-sent "nightly" "dns" history (pos 2)

has-failed_checks-after_example :
    (has (failed_checks "nightly" (after history (new_store (pos 2)))) "dns" ≡ true)
    × IsDistinct (failed_checks "nightly" (after history (new_store (pos 2))))
has-failed_checks-after_example =
    has-failed_checks-after "nightly" "dns" history 2 (omega arith) (omega arith)

abbrev verdict_of : String → String
verdict_of id = if id == "dns" then "FAIL" else "PASS"

abbrev answer_of : VerifyRequest → VerifyResponse
answer_of r = record { verdict = verdict_of r.check_id; reasoning = "seen"; tool_calls = [] }

abbrev adapter : Adapter ℕ
adapter = record {
  verify = λ r w. (ok (answer_of r), suc w);
  batch_verify = λ r w. (ok (map answer_of r.checks), suc w);
  call_tool = λ name w. (ok "ready", w);
  time_now = λ w. (w, suc w);
  hash = λ s. s;
}

abbrev item : String → CheckItem
item id = record { id = id; description = "works"; severity = "critical" }

abbrev items : List CheckItem
items = item "dns" ∷ item "pods" ∷ item "nodes" ∷ item "hpa" ∷ item "pdb" ∷ item "logs" ∷ []

abbrev nightly : Policy
nightly = record { name = "nightly"; namespace = "dtm"; target_namespaces = []; checks = items }

checks_of-run_checks_example :
    (spec : ResultSpec) × (((run_checks adapter nightly items new 0).0 ≡ ok spec)
      × (checks_of spec.checks ≡ items))
checks_of-run_checks_example = checks_of-run_checks adapter nightly items new 0

abbrev found : String → String → CheckResult
found id verdict = record {
  id = id;
  description = "works";
  verdict = verdict;
  reasoning = "";
  evidence = none;
  failed_since = none;
  severity = "critical";
}

abbrev results : List CheckResult
results = found "dns" "FAIL" ∷ found "pods" "PASS" ∷ found "nodes" "PASS" ∷ []

compute_summary_lem_example :
    compute_summary results ≡ record { total = pos 3; pass = pos 2; warn = pos 0; fail = pos 1 }
compute_summary_lem_example = compute_summary_lem results (omega arith)

run_checks-unchanged_example :
    (map
        (λ (r : CheckResult). some r.verdict)
        (results_of
          (run_checks adapter nightly
            (item "dns" ∷ [])
            (run_checks adapter nightly items new 0).1.0
            50).0)
      ≡ map
          (λ (c : CheckItem).
            verdict_in (results_of (run_checks adapter nightly items new 0).0) c.id)
          (item "dns" ∷ []))
    × ((run_checks adapter nightly
          (item "dns" ∷ [])
          (run_checks adapter nightly items new 0).1.0
          50).1.1
        ≡ looked_at adapter nightly 50)
run_checks-unchanged_example =
    run_checks-unchanged adapter nightly items (item "dns" ∷ []) new 0 50
      (refl, (refl, (refl, (refl, (refl, (refl, tt)))))) (omega arith) (refl, tt) refl

abbrev kinds : List Condition → List String
kinds = map (λ (c : Condition). c.kind)

-- `SetStatusCondition`, without the rule for the time.
abbrev put : Condition → List Condition → List Condition
put c [] = c ∷ []
put c (d ∷ l) = let rest = put c l in if d.kind == c.kind then c ∷ l else d ∷ rest

abbrev cluster : Cluster ℕ
cluster = record {
  adapter = adapter;
  dispatch = λ e w. w;
  create = λ r w. (none, w);
  get_status = λ namespace name w. (failed "not found", w);
  update_status = λ namespace name s w. (none, w);
  set_condition = put;
  timestamp = λ t. "today";
  format_time = λ t. "today";
  to_lower = λ s. s;
}

abbrev start : State ℕ
start = record { alerts = new_store (pos 5); engine = new; world = 0 }

checks_to_rescan-after_scans_example :
    checks_to_rescan nightly (after_scans cluster nightly (true ∷ false ∷ []) start).alerts
    ≡ filter
        (λ (c : CheckItem). failing_in c.id (log_of cluster nightly (true ∷ false ∷ []) start))
        items
checks_to_rescan-after_scans_example =
    checks_to_rescan-after_scans cluster nightly 5 (true ∷ false ∷ []) start (omega arith)
      (omega arith) refl

kinds-put :
    (c : Condition) (l : List Condition) (kind : String)
    → has (kinds (put c l)) kind ≡ (has (kinds l) kind || c.kind == kind)
kinds-put c [] kind = ground arith
kinds-put c (d ∷ l) kind = ground (arith, kinds-put c l kind, eq_iff d.kind c.kind)

IsKinded-put : (c : Condition) (l : List Condition) → IsKinded l → IsKinded (put c l)
IsKinded-put c [] k = (refl, tt)
IsKinded-put c (d ∷ l) (e, k) =
    ground
      (arith, IsKinded-put c l k, kinds-put c l d.kind, eq_iff d.kind c.kind, eq_iff c.kind d.kind)

of_kind-put : (c : Condition) (l : List Condition) → of_kind c.kind (put c l) ≡ some c
of_kind-put c [] = rw (eq_refl c.kind) refl
of_kind-put c (d ∷ l) = elim (Bool-cases (d.kind == c.kind)) [
  | inl e ↦ rw (e, eq_refl c.kind) refl
  | inr e ↦ rw (e, e, of_kind-put c l) refl
]

of_kind-put_other :
    (c : Condition) (l : List Condition) (kind : String)
    → (c.kind == kind) ≡ false
    → of_kind kind (put c l) ≡ of_kind kind l
of_kind-put_other c [] kind n = rw n refl
of_kind-put_other c (d ∷ l) kind n =
    ground (arith, of_kind-put_other c l kind n, eq_iff d.kind c.kind, n)

put-IsSetter : IsSetter put
put-IsSetter = record {
  kinded = λ c l k. IsKinded-put c l k;
  says = λ c l k. rw (of_kind-put c l) (refl, (refl, refl));
  others = λ c l kind k n. of_kind-put_other c l kind n;
}

abbrev status : PolicyStatus
status = record {
  last_full_scan_time = none;
  last_rescan_time = none;
  last_result_name = "";
  summary = none;
  conditions = [];
}

abbrev spec : ResultSpec
spec = record {
  policy_ref = "nightly";
  scan_type = full_scan;
  started_at = 1;
  completed_at = some 2;
  checks = results;
  summary = some (compute_summary results);
}

abbrev scanned_policy : ChecklistPolicy
scanned_policy = record policy {
  status = some (record {
    last_full_scan_time = none;
    last_rescan_time = none;
    last_result_name = none;
    summary = none;
    conditions = some (new_status cluster nightly spec 3 4 5 "nightly-1" status).conditions;
  });
}

health-new_status_example :
    (since : Option String) × (health scanned_policy
      ≡ error "ChecksFailed" "Last scan: 2 pass, 0 warn, 1 fail" since)
unfolding decimal
health-new_status_example =
    health-new_status cluster nightly results spec 3 4 5 "nightly-1" status scanned_policy
      put-IsSetter tt (omega arith) refl refl
