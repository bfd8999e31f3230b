-- ===== src/Scheduler/Scans.antt =====
-- operator/internal/scheduler/scheduler.go: `runFullScan` and `runRescan`.
use mathlib.Core.Option.{Option, none, some}
use drop_the_mic.Base.{String, length, eqb, if◌then◌else◌}
use drop_the_mic.Base.Text.{◌<>◌}
use drop_the_mic.Alerts.{Store, failed_checks}
use drop_the_mic.Engine.{Answer, ok, failed, full_scan, rescan, ResultSpec, Policy, Engine}
use drop_the_mic.Engine.Scan.{run_checks}
use drop_the_mic.Scheduler.{Cluster, State, checks_to_rescan}
use drop_the_mic.Scheduler.Record.{process_results}
use drop_the_mic.Scheduler.Status.{create_result, update_policy_status, set_degraded_condition}

module _ {W : Type 0} (io : Cluster W) (policy : Policy) where
  abbrev pub updated_after : ResultSpec → Option String × W → W
  updated_after spec (some e, w) = w
  updated_after spec (none, w) = (update_policy_status io policy spec w).1

  -- What follows the scan itself: the results are processed, and the object is made of them.
  abbrev pub finish_full_scan : Answer ResultSpec → Store → Engine → W → State W
  finish_full_scan (failed e) alerts engine w = record {
    alerts = alerts;
    engine = engine;
    world = set_degraded_condition io policy "LLMError" ("Full scan failed: " <> e) w;
  }
  finish_full_scan (ok spec) alerts engine w =
      let done = process_results io policy spec.checks alerts w in
      let result : ResultSpec = record spec { scan_type = full_scan; checks = done.0 } in
      record {
        alerts = done.1.0;
        engine = engine;
        world = updated_after result (create_result io policy result done.1.1);
      }

  unfoldable pub run_full_scan : State W → State W
  unfolding run_checks
  run_full_scan st =
      let run = run_checks io.adapter policy policy.checks st.engine st.world in
      finish_full_scan run.0 st.alerts run.1.0 run.1.1

  abbrev pub finish_rescan : Answer ResultSpec → Store → Engine → W → State W
  finish_rescan (failed e) alerts engine w = record {
    alerts = alerts;
    engine = engine;
    world = set_degraded_condition io policy "LLMError" ("Rescan failed: " <> e) w;
  }
  finish_rescan (ok spec) alerts engine w =
      let done = process_results io policy spec.checks alerts w in
      let result : ResultSpec = record spec { scan_type = rescan; checks = done.0 } in
      record {
        alerts = done.1.0;
        engine = engine;
        world = (create_result io policy result done.1.1).1;
      }

  unfoldable pub run_rescan : State W → State W
  unfolding run_checks checks_to_rescan
  run_rescan st =
      if eqb (length (failed_checks policy.name st.alerts)) 0
      then st
      else (let run =
            run_checks io.adapter policy (checks_to_rescan policy st.alerts) st.engine st.world in
          finish_rescan run.0 st.alerts run.1.0 run.1.1)
