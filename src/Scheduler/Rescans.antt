-- ===== src/Scheduler/Rescans.antt =====
-- What a rescan checks, from the verdicts of the scans before. `true` stands for a rescan, `false` for a full
-- scan; a list of scans and a log of results have the newest first.
use drop_the_mic.Base.{
  ℕ, ◌≤◌, ◌≡◌, refl, ap, ◌∙◌, String, Bool, true, false, ◌&&◌, ◌||◌, List, [], ◌∷◌, length, filter,
  arith, if◌then◌else◌, eqb, leb, ◌==◌, eq_iff, eq_refl, inl, inr, Bool-cases,
}
use drop_the_mic.Base.Num.{pos}
use drop_the_mic.Base.Sets.{has}
use drop_the_mic.Alerts.{Store, new_store, record_fail, record_pass, failed_checks}
use drop_the_mic.Alerts.History.{Observation, after}
use drop_the_mic.Alerts.States.{fails}
use drop_the_mic.Alerts.Failing.{has-failed_checks-after}
use drop_the_mic.Engine.{Answer, ok, failed, CheckItem, CheckResult, ResultSpec, Policy, Engine}
use drop_the_mic.Engine.Scan.{run_checks}
use drop_the_mic.Engine.Reuse.{results_of}
use drop_the_mic.Scheduler.{Cluster, State, checks_to_rescan}
use drop_the_mic.Scheduler.Scans.{run_full_scan, run_rescan, finish_full_scan, finish_rescan}
use drop_the_mic.Scheduler.Record.{process, process_results}

abbrev pub decides : String → Bool
decides verdict = verdict == "FAIL" || verdict == "PASS"

-- Whether the last result of a check that is PASS or FAIL is FAIL.
abbrev pub failing_in : String → List CheckResult → Bool
failing_in id [] = false
failing_in id (r ∷ earlier) =
    let before = failing_in id earlier in
    if r.id == id && decides r.verdict then r.verdict == "FAIL" else before

abbrev pub reverse_onto : List CheckResult → List CheckResult → List CheckResult
reverse_onto [] log = log
reverse_onto (r ∷ rest) log = reverse_onto rest (r ∷ log)

-- A store that these results have led to.
record IsLogged (name : String) (threshold : ℕ) (log : List CheckResult) (alerts : Store)
    : Type 0 where
  history : List Observation
  reached : alerts ≡ after history (new_store (pos threshold))
  same : (id : String) → leb 1 (fails name id history) ≡ failing_in id log

passed :
    (b : Bool) (n : ℕ) (f : Bool)
    → leb 1 n ≡ f
    → leb 1 (if b then 0 else n) ≡ (if b && true then false else f)
passed true n f h = refl
passed false n f h = h

module _ (name : String) (threshold : ℕ) (r : CheckResult) (log : List CheckResult) (alerts : Store)
    (now : ℕ) where
  IsLogged-fail :
      r.verdict ≡ "FAIL"
      → IsLogged name threshold log alerts
      → IsLogged name threshold (r ∷ log) (record_fail name r.id now alerts).0
  IsLogged-fail e h = record {
    history = record { policy = name; check = r.id; failed = true; now = now } ∷ h.history;
    reached = ap (λ s. (record_fail name r.id now s).0) h.reached;
    same = λ id. rw (eq_refl name, e) (ground (arith, h.same id));
  }

  IsLogged-pass :
      r.verdict ≡ "PASS"
      → IsLogged name threshold log alerts
      → IsLogged name threshold (r ∷ log) (record_pass name r.id now alerts).0
  IsLogged-pass e h = record {
    history = record { policy = name; check = r.id; failed = false; now = now } ∷ h.history;
    reached = ap (λ s. (record_pass name r.id now s).0) h.reached;
    same = λ id. rw (eq_refl name, e) (passed (r.id == id) _ _ (h.same id));
  }

  IsLogged-other :
      decides r.verdict ≡ false
      → IsLogged name threshold log alerts
      → IsLogged name threshold (r ∷ log) alerts
  IsLogged-other e h = record {
    history = h.history;
    reached = h.reached;
    same = λ id. h.same id ∙ unread id;
  }
    where
      unread : (id : String) → failing_in id log ≡ failing_in id (r ∷ log)
      unread id = ground (arith, e)

module _ {W : Type 0} (io : Cluster W) (policy : Policy) (threshold : ℕ) where
  IsLogged-process :
      (r : CheckResult) (log : List CheckResult) (alerts : Store) (w : W)
      → IsLogged policy.name threshold log alerts
      → IsLogged policy.name threshold (r ∷ log) (process io policy r alerts w).1.0
  IsLogged-process r log alerts w h = elim (Bool-cases (r.verdict == "FAIL")) [
    | inl f ↦
        rw f (IsLogged-fail policy.name threshold r log alerts _ ((eq_iff r.verdict "FAIL").0 f) h)
    | inr f ↦ elim (Bool-cases (r.verdict == "PASS")) [
      | inl p ↦
          rw (f, p)
            (IsLogged-pass policy.name threshold r log alerts _ ((eq_iff r.verdict "PASS").0 p) h)
      | inr p ↦ rw (f, p) (IsLogged-other policy.name threshold r log alerts 0 (rw (f, p) refl) h)
    ]
  ]

  IsLogged-process_results :
      (results log : List CheckResult) (alerts : Store) (w : W)
      → IsLogged policy.name threshold log alerts
      → IsLogged policy.name threshold
          (reverse_onto results log)
          (process_results io policy results alerts w).1.0
  IsLogged-process_results [] log alerts w h = h
  IsLogged-process_results (r ∷ rest) log alerts w h =
      IsLogged-process_results rest (r ∷ log) _ _ (IsLogged-process r log alerts w h)

module _ {W : Type 0} (io : Cluster W) (policy : Policy) where
  -- The results that the engine gives a scan.
  unfoldable pub scan_results : Bool → State W → List CheckResult
  unfolding run_checks checks_to_rescan
  scan_results false st =
      results_of (run_checks io.adapter policy policy.checks st.engine st.world).0
  scan_results true st =
      if eqb (length (failed_checks policy.name st.alerts)) 0
      then []
      else results_of
          (run_checks io.adapter policy (checks_to_rescan policy st.alerts) st.engine st.world).0

  abbrev pub run_scan : Bool → State W → State W
  run_scan false st = run_full_scan io policy st
  run_scan true st = run_rescan io policy st

  abbrev pub after_scans : List Bool → State W → State W
  after_scans [] st = st
  after_scans (scan ∷ earlier) st = run_scan scan (after_scans earlier st)

  abbrev pub log_of : List Bool → State W → List CheckResult
  log_of [] st = []
  log_of (scan ∷ earlier) st =
      reverse_onto (scan_results scan (after_scans earlier st)) (log_of earlier st)

  module _ (threshold : ℕ) where
    IsLogged-finish_full_scan :
        (run : Answer ResultSpec × (Engine × W)) (log : List CheckResult) (alerts : Store)
        → IsLogged policy.name threshold log alerts
        → IsLogged policy.name threshold
            (reverse_onto (results_of run.0) log)
            (finish_full_scan io policy run.0 alerts run.1.0 run.1.1).alerts
    IsLogged-finish_full_scan (ok spec, (engine, w)) log alerts h =
        IsLogged-process_results io policy threshold spec.checks log alerts w h
    IsLogged-finish_full_scan (failed e, (engine, w)) log alerts h = h

    IsLogged-finish_rescan :
        (run : Answer ResultSpec × (Engine × W)) (log : List CheckResult) (alerts : Store)
        → IsLogged policy.name threshold log alerts
        → IsLogged policy.name threshold
            (reverse_onto (results_of run.0) log)
            (finish_rescan io policy run.0 alerts run.1.0 run.1.1).alerts
    IsLogged-finish_rescan (ok spec, (engine, w)) log alerts h =
        IsLogged-process_results io policy threshold spec.checks log alerts w h
    IsLogged-finish_rescan (failed e, (engine, w)) log alerts h = h

    IsLogged-run_scan :
        (scan : Bool) (log : List CheckResult) (st : State W)
        → IsLogged policy.name threshold log st.alerts
        → IsLogged policy.name threshold
            (reverse_onto (scan_results scan st) log)
            (run_scan scan st).alerts
    unfolding run_full_scan run_rescan scan_results
    IsLogged-run_scan false log st h =
        IsLogged-finish_full_scan (run_checks io.adapter policy policy.checks st.engine st.world)
          log st.alerts h
    IsLogged-run_scan true log st h =
        elim (Bool-cases (eqb (length (failed_checks policy.name st.alerts)) 0)) [
          | inl e ↦ rw e h
          | inr e ↦ rw e (
              IsLogged-finish_rescan
                (run_checks io.adapter policy (checks_to_rescan policy st.alerts) st.engine
                  st.world)
                log st.alerts h)
        ]

    IsLogged-after_scans :
        (scans : List Bool) (st : State W)
        → IsLogged policy.name threshold [] st.alerts
        → IsLogged policy.name threshold (log_of scans st) (after_scans scans st).alerts
    IsLogged-after_scans [] st h = h
    IsLogged-after_scans (scan ∷ earlier) st h =
        IsLogged-run_scan scan _ _ (IsLogged-after_scans earlier st h)

filter-cong :
    (p q : CheckItem → Bool) (l : List CheckItem)
    → ((c : CheckItem) → p c ≡ q c)
    → filter p l ≡ filter q l
filter-cong p q [] h = refl
filter-cong p q (c ∷ l) h = rw (h c, filter-cong p q l h) refl

-- A scheduler that starts with a new store of a positive threshold, and whose store no other one changes:
-- after any full scans and rescans, a rescan takes the checks of the policy, in its order, whose last result of PASS or FAIL
-- in all these scans is FAIL.
pub checks_to_rescan-after_scans :
    {W : Type 0} (io : Cluster W) (policy : Policy) (threshold : ℕ) (scans : List Bool)
    (st : State W)
    → 1 ≤ threshold
    → threshold ≤ 2147483647
    → st.alerts ≡ new_store (pos threshold)
    → checks_to_rescan policy (after_scans io policy scans st).alerts
      ≡ filter (λ (c : CheckItem). failing_in c.id (log_of io policy scans st)) policy.checks
unfolding checks_to_rescan
checks_to_rescan-after_scans io policy threshold scans st lo hi e =
    let h =
      IsLogged-after_scans io policy threshold scans st
        (record { history = []; reached = e; same = λ id. refl }) in
    filter-cong _ _ policy.checks (λ c.
      ap (λ s. has (failed_checks policy.name s) c.id) h.reached
      ∙ (has-failed_checks-after policy.name c.id h.history threshold lo hi).0
      ∙ h.same c.id)
