-- ===== src/Tests/Policies.antt =====
-- The pages of policies and the dashboard, on concrete resources.
use mathlib.Core.List.{Perm}
use drop_the_mic.Base.{◌≤◌, ◌≡◌, ◌≢◌, refl, true, false, none, some, List, [], ◌∷◌, ◌++◌, length}
use drop_the_mic.Base.Num.{pos}
use drop_the_mic.Api.{ChecklistPolicy, ChecklistResult, Condition}
use drop_the_mic.Client.Endpoints.{delete_policy, update_policy}
use drop_the_mic.Policies
use drop_the_mic.Policies.View.{screen, policy_detail, detail}
use drop_the_mic.Policies.{
  condition_badge, health, edit_target, ask_delete, confirm_delete, close_delete,
}
use drop_the_mic.Policies.Conditions.{Agrees, condition_badge-health}
use drop_the_mic.Policies.Deletion.{calls_of}
use drop_the_mic.Policies.Editing.{reopened_stale}
use drop_the_mic.PolicyForm.{render, reset_form, handle_submit, initial}
use drop_the_mic.PolicyForm.RoundTrip.{shown_part}
use drop_the_mic.Results.Sorting.{IsNewestFirst}
use drop_the_mic.Dashboard.{latest_results}
use drop_the_mic.Dashboard.Latest.{latest_results_lem}
use drop_the_mic.Tests.{millis, parse_millis, scans, policy, bad_summary}
use drop_the_mic.Tests.Editing.{policy-IsShowable}

abbrev degraded : Condition
degraded = record {
  kind = "Degraded";
  status = "True";
  reason = "LLMError";
  message = "no answer";
  last_transition_time = none;
}

abbrev scanned : ChecklistPolicy
scanned = record policy {
  status = some (record {
    last_full_scan_time = some "100";
    last_rescan_time = none;
    last_result_name = none;
    summary = some bad_summary;
    conditions = some (record degraded { kind = "Available" } ∷ degraded ∷ []);
  });
}

abbrev showing : Policies.State
showing = record Policies.initial { selected = some policy }

condition_badge-health_example : Agrees (health scanned) (condition_badge scanned)
condition_badge-health_example = condition_badge-health scanned

calls_of_session :
    calls_of Policies.initial (ask_delete "dtm" "nightly" ∷ confirm_delete ∷ [])
    ≡ delete_policy "dtm" "nightly" ∷ []
unfolding Policies.act
calls_of_session = refl

reopened_stale_example :
    (screen parse_millis (pos 300) false showing (some (scanned ∷ []))
      ≡ detail (policy_detail parse_millis (pos 300) false policy))
    × (handle_submit "dtm-system" true
          (render (edit_target showing (some (scanned ∷ []))) true (reset_form initial))
        ≡ some (update_policy "dtm" "nightly" (shown_part policy.spec)))
reopened_stale_example =
    reopened_stale parse_millis (pos 300) false "dtm-system" showing policy (scanned ∷ []) initial
      refl policy-IsShowable

latest_results_lem_example :
    (others : List ChecklistResult) × Perm (latest_results parse_millis scans ++ others) scans
    × IsNewestFirst
        (λ r. millis r.metadata.creation_timestamp)
        (latest_results parse_millis scans ++ others)
    × (length (latest_results parse_millis scans) ≤ 8)
    × (others ≢ [] → length (latest_results parse_millis scans) ≡ 8)
latest_results_lem_example =
    latest_results_lem parse_millis (λ r. millis r.metadata.creation_timestamp) scans
      (refl, (refl, tt))
