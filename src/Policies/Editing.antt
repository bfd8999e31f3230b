-- ===== src/Policies/Editing.antt =====
-- Editing a policy from its detail: the page keeps the policy that was selected, and not what the
-- server has by now.
use drop_the_mic.Base.{◌≡◌, ap, ◌∙◌, String, Bool, true, some, List}
use drop_the_mic.Base.Num.{ℤ, Number}
use drop_the_mic.Api.{ChecklistPolicy}
use drop_the_mic.Client.Endpoints.{update_policy}
use drop_the_mic.Policies.View.{screen, policy_detail, detail}
use drop_the_mic.Policies.{State, edit_target}
use drop_the_mic.PolicyForm.{Form, initial, render, reset_form, handle_submit}
use drop_the_mic.PolicyForm.RoundTrip.{
  IsShowable, shown_part, handle_submit-prefill, render-reset_form,
}

-- While the detail of a policy is shown, the policies that the server sends change nothing on it;
-- and where the form was closed and is opened again, saving it without a change sends the part that the
-- form has inputs for of the specification that the policy had when it was selected, which leaves out
-- the secret key, the notification and the escalation threshold, whatever policies the server has sent
-- since. The policy is one that the form can show.
pub reopened_stale :
    (parse_date : String → Number) (now : ℤ) (running : Bool) (default_ns : String) (st : State)
    (p : ChecklistPolicy) (policies : List ChecklistPolicy) (form : Form)
    → st.selected ≡ some p
    → IsShowable p
    → (screen parse_date now running st (some policies)
        ≡ detail (policy_detail parse_date now running p))
      × (handle_submit default_ns true
            (render (edit_target st (some policies)) true (reset_form form))
          ≡ some (update_policy p.metadata.namespace p.metadata.name (shown_part p.spec)))
unfolding screen edit_target
reopened_stale parse_date now running default_ns st p policies form e h = (
  rw e,
  ap (λ o. handle_submit default_ns true (render o true (reset_form form))) e
      ∙ ap (handle_submit default_ns true) (render-reset_form p form).0
      ∙ handle_submit-prefill default_ns p initial h,
)
