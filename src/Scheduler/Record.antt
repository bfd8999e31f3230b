-- ===== src/Scheduler/Record.antt =====
-- operator/internal/scheduler/scheduler.go: `processResults`, which tells the store and the notifiers.
use mathlib.Core.Option.{Option, none, some}
use drop_the_mic.Base.{List, [], ◌∷◌, if◌then◌else◌, ◌==◌}
use drop_the_mic.Alerts.{Store, Transition, record_fail, record_pass, get_state}
use drop_the_mic.Engine.{CheckResult, Policy}
use drop_the_mic.Scheduler.{Event, Cluster, since_of}

module _ {W : Type 0} (io : Cluster W) (policy : Policy) where
  abbrev pub event_of : CheckResult → Transition → Event
  event_of check transition = record {
    policy_ref = policy.name;
    check_id = check.id;
    description = check.description;
    severity = check.severity;
    verdict = check.verdict;
    reasoning = check.reasoning;
    transition = transition;
  }

  abbrev pub notified : CheckResult → Option Transition → W → W
  notified check none w = w
  notified check (some t) w = io.dispatch (event_of check t) w

  -- The body of the loop of `processResults`, for each verdict.
  abbrev pub process_fail : CheckResult → Store → W → CheckResult × (Store × W)
  process_fail check alerts w =
      let clock = io.adapter.time_now w in
      let step = record_fail policy.name check.id clock.0 alerts in
      let check' = since_of (get_state policy.name check.id step.0) check in
      (check', (step.0, notified check' step.1 clock.1))

  abbrev pub process_pass : CheckResult → Store → W → CheckResult × (Store × W)
  process_pass check alerts w =
      let clock = io.adapter.time_now w in
      let step = record_pass policy.name check.id clock.0 alerts in
      (check, (step.0, notified check step.1 clock.1))

  abbrev pub process : CheckResult → Store → W → CheckResult × (Store × W)
  process check alerts w =
      if check.verdict == "FAIL"
      then process_fail check alerts w
      else if check.verdict == "PASS"
      then process_pass check alerts w
      else (check, (alerts, w))

  abbrev pub process_results : List CheckResult → Store → W → List CheckResult × (Store × W)
  process_results [] alerts w = ([], (alerts, w))
  process_results (check ∷ rest) alerts w =
      let one = process check alerts w in
      let later = process_results rest one.1.0 one.1.1 in (one.0 ∷ later.0, later.1)
