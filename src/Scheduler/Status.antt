-- ===== src/Scheduler/Status.antt =====
-- operator/internal/scheduler/scheduler.go: the object of a scan, and the status of the policy.
use mathlib.Core.Option.{Option, some}
use drop_the_mic.Base.{ℕ, String, List, if◌then◌else◌}
use drop_the_mic.Base.Text.{◌<>◌}
use drop_the_mic.Api.{Condition}
use drop_the_mic.Engine.{Answer, ok, failed, ScanSummary, ScanType, full_scan, ResultSpec, Policy}
use drop_the_mic.Scheduler.{
  PolicyStatus, Cluster, scan_type_text, is_positive, summary_text, summary_or_zero,
}

module _ {W : Type 0} (io : Cluster W) (policy : Policy) where
  -- `GenerateResultName`
  abbrev pub generate_result_name : ScanType → W → String × W
  generate_result_name scan_type w =
      let clock = io.adapter.time_now w in
      (policy.name <> "-" <> scan_type_text scan_type <> "-" <> io.format_time clock.0, clock.1)

  abbrev pub create_result : ResultSpec → W → Option String × W
  create_result spec w =
      let named = generate_result_name spec.scan_type w in
      io.create
        (record {
          name = io.to_lower named.0;
          namespace = policy.namespace;
          policy_label = policy.name;
          owner = policy.name;
          spec = spec;
          phase = "Completed";
        })
        named.1

  abbrev pub condition : (kind status reason message : String) → (now : ℕ) → Condition
  condition kind status reason message now = record {
    kind = kind;
    status = status;
    reason = reason;
    message = message;
    last_transition_time = some (io.timestamp now);
  }

  abbrev pub with_times : ScanType → (now : ℕ) → PolicyStatus → PolicyStatus
  with_times full_scan now status = record status { last_full_scan_time = some now }
  with_times _ now status = record status { last_rescan_time = some now }

  -- The conditions after a scan with this number of failures, at the times of the two calls.
  abbrev pub scanned : ScanSummary → (t₁ t₂ : ℕ) → List Condition → List Condition
  scanned s t₁ t₂ conditions =
      if is_positive s.fail
      then io.set_condition (condition "Available" "False" "ChecksFailed" (summary_text s) t₂) (
          io.set_condition (condition "Degraded" "True" "ChecksFailed" (summary_text s) t₁)
            conditions)
      else io.set_condition (condition "Degraded" "False" "ScanCompleted" (summary_text s) t₂) (
          io.set_condition (condition "Available" "True" "ScanCompleted" (summary_text s) t₁)
            conditions)

  abbrev pub new_status :
      ResultSpec → (now t₁ t₂ : ℕ) → (name : String) → PolicyStatus → PolicyStatus
  new_status spec now t₁ t₂ name status = record (with_times spec.scan_type now status) {
    summary = spec.summary;
    last_result_name = name;
    conditions = scanned (summary_or_zero spec.summary) t₁ t₂ status.conditions;
  }

  abbrev pub update_fetched : ResultSpec → Answer PolicyStatus → W → Option String × W
  update_fetched spec (failed e) w = (some ("fetching latest policy: " <> e), w)
  update_fetched spec (ok status) w =
      let now = io.adapter.time_now w in
      let named = generate_result_name spec.scan_type now.1 in
      let first = io.adapter.time_now named.1 in
      let second = io.adapter.time_now first.1 in
      io.update_status policy.namespace policy.name
        (new_status spec now.0 first.0 second.0 named.0 status) second.1

  abbrev pub update_policy_status : ResultSpec → W → Option String × W
  update_policy_status spec w =
      let fetched = io.get_status policy.namespace policy.name w in
      update_fetched spec fetched.0 fetched.1

  abbrev pub degraded_fetched : (reason message : String) → Answer PolicyStatus → W → W
  degraded_fetched reason message (failed e) w = w
  degraded_fetched reason message (ok status) w =
      let first = io.adapter.time_now w in
      let second = io.adapter.time_now first.1 in
      (io.update_status policy.namespace policy.name
        (record status {
          conditions = io.set_condition (condition "Available" "False" reason message second.0) (
              io.set_condition (condition "Degraded" "True" reason message first.0)
                status.conditions);
        })
        second.1).1

  abbrev pub set_degraded_condition : (reason message : String) → W → W
  set_degraded_condition reason message w =
      let fetched = io.get_status policy.namespace policy.name w in
      degraded_fetched reason message fetched.0 fetched.1
