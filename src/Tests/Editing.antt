-- ===== src/Tests/Editing.antt =====
-- The policy form, on a concrete policy and a concrete list of checks.
use drop_the_mic.Base.{◌≡◌, ◌↔◌, ◌⊎◌, refl, true, false, none, some, arith, All, eq_iff, ◌==◌}
use mathlib.Core.Option.{some-injective}
use drop_the_mic.Base.Text.{trim, IsBlank}
use drop_the_mic.Client.Endpoints.{create_policy, update_policy}
use drop_the_mic.PolicyForm.{
  Form, initial, prefill, is_valid, valid_checks, build_cr, submitted_spec, handle_submit,
}
use drop_the_mic.PolicyForm.Submit.{IsLeftOut, handle_submit-none_iff, handle_submit-build_cr}
use drop_the_mic.PolicyForm.RoundTrip.{IsShowable, handle_submit-prefill_iff}
use drop_the_mic.Base.{List, String}
use drop_the_mic.Api.{str}
use drop_the_mic.Client.{Response}
use drop_the_mic.Client.Endpoints.{Endpoint, api}
use drop_the_mic.PolicyForm.Modal
use drop_the_mic.PolicyForm.Modal.Success.{click_submit-settled}
use drop_the_mic.Tests.{checks, policy, answer, signed_in, unusable}

abbrev no_query : List (String × String) → String
no_query params = ""

abbrev filled : Form
filled = record initial { name = "nightly"; checks = checks }

handle_submit-none_iff_example :
    (handle_submit "dtm-system" false filled ≡ none) ↔ (IsBlank filled.name ⊎ All IsLeftOut checks)
handle_submit-none_iff_example = handle_submit-none_iff "dtm-system" false filled

filled_sent :
    handle_submit "dtm-system" false filled
    ≡ some (create_policy "nightly" "dtm-system" (submitted_spec filled))
unfolding handle_submit valid_checks is_valid trim initial
filled_sent = refl

handle_submit-build_cr_example :
    let shown = build_cr "dtm-system" filled in
    create_policy "nightly" "dtm-system" (submitted_spec filled)
    ≡ create_policy shown.name shown.namespace shown.spec
handle_submit-build_cr_example = handle_submit-build_cr "dtm-system" filled _ filled_sent

pub policy-IsShowable : IsShowable policy
unfolding is_valid trim
policy-IsShowable = record {
  named = refl;
  model = λ e. absurd (not_empty ((eq_iff "m" "").1 (some-injective "m" "" e)));
  rescan = λ e. cc;
  targets = λ e. cc;
  some_check = omega arith;
  valid = (refl, tt);
}
  where
    not_empty : ("m" == "") ≡ true → ⊥
    not_empty q = cc

handle_submit-prefill_iff_example :
    (handle_submit "dtm-system" true (prefill policy initial)
      ≡ some (update_policy "dtm" "nightly" policy.spec))
    ↔ ((policy.spec.llm.secret_ref.key ≡ none)
        × (policy.spec.notification ≡ none)
        × (policy.spec.escalation_threshold ≡ none))
handle_submit-prefill_iff_example =
    handle_submit-prefill_iff "dtm-system" policy initial policy-IsShowable

abbrev ready : Modal.State
ready = record Modal.closed { is_open = true; form = filled }

abbrev creation : Endpoint
creation = create_policy "nightly" "dtm-system" (submitted_spec filled)

abbrev created : Response
created = record { status = 201; status_text = ""; json = some (str "token"); error = none }

click_submit-settled_example :
    let sent = Modal.click_submit "dtm-system" false ready in
    let result = (api no_query "failed" unusable (answer 201) signed_in creation).1 in
    (sent.1 ≡ some creation)
    × (Modal.settled false result sent.0
        ≡ (record Modal.closed { status = Modal.Status.success }, some "Policy created"))
click_submit-settled_example =
    click_submit-settled "dtm-system" false ready creation no_query "failed" unusable (answer 201)
      signed_in created (str "token") refl filled_sent refl (omega arith) (omega arith) refl
