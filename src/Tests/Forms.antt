-- ===== src/Tests/Forms.antt =====
-- The policy form and the list of policies while they are used.
use mathlib.Core.Option.{Option, none, some}
use drop_the_mic.Base.{ℕ, ◌+◌, ◌≤◌, ◌≡◌, ◌↔◌, refl, String, true, false, List, [], ◌++◌, length}
use drop_the_mic.Base.Text.{◌<>◌, trim}
use drop_the_mic.Base.Text.Decimal.{decimal}
use drop_the_mic.Api.{str}
use drop_the_mic.Client.{error_message, Response}
use drop_the_mic.Client.Endpoints.{Endpoint, api, create_policy}
use drop_the_mic.Client.Flight.{IsSingle, add_call}
use drop_the_mic.PolicyForm
use drop_the_mic.PolicyForm.{submitted_spec, CheckField, handle_submit}
use drop_the_mic.PolicyForm.Modal.{
  State, closed, name, update, typed, is_pending, click_submit, settled, View, view,
}
use drop_the_mic.PolicyForm.Modal.Errors.{settled-refused}
use drop_the_mic.PolicyForm.Modal.Keys.{Focus, press, press-Escape}
use drop_the_mic.PolicyForm.Modal.Session.{Reach, here, types, submits, remounts, Reach-IsSingle}
use drop_the_mic.Policies.Pending.{Page, fresh, click_run}
use drop_the_mic.Policies.Pending.Answers
use drop_the_mic.Policies.Pending.Answers.{IsOneEach, Reach-IsOneEach}
use drop_the_mic.Tests.{answer, signed_in, unusable}

abbrev named : State
named = record closed { form = typed (name "nightly") closed.form }

abbrev ready : State
ready = record named { form = typed (update 0 CheckField.description "pods run") named.form }

abbrev sent : State × Option Endpoint
sent = click_submit "dtm-system" false ready

-- The form sends its call and is left before the answer; the next one sends its own.
Reach-IsSingle_example :
    IsSingle (is_pending sent.0.status) (add_call sent.1 [])
    × (length (add_call sent.1 [] ++ []) ≤ 1)
Reach-IsSingle_example = Reach-IsSingle "dtm-system" (submits (filled_in (remounts false once)))
  where
    filled_in :
        {left : List Endpoint} {n : ℕ}
        → Reach "dtm-system" false closed [] left n
        → Reach "dtm-system" false ready [] left n
    filled_in r = types (update 0 CheckField.description "pods run") (types (name "nightly") r)

    once : Reach "dtm-system" false sent.0 (add_call sent.1 []) [] 0
    once = submits (filled_in (here false))

abbrev no_query : List (String × String) → String
no_query params = ""

abbrev refusal : Response
refusal = record { status = 500; status_text = ""; json = some (str "token"); error = none }

abbrev waiting : State
waiting = record ready { is_open = true }

abbrev creation : Endpoint
creation = create_policy "nightly" "dtm-system" (submitted_spec waiting.form)

waiting_sent : handle_submit "dtm-system" false waiting.form ≡ some creation
unfolding handle_submit trim typed PolicyForm.valid_checks PolicyForm.update_check
    PolicyForm.initial decimal
waiting_sent = refl

settled-refused_example :
    let sent = click_submit "dtm-system" false waiting in
    let reply = api no_query "failed" unusable (answer 500) signed_in creation in
    let (after, toast) = settled false reply.1 sent.0 in
    (reply.0 ≡ signed_in)
    × (toast ≡ none)
    × (after.form ≡ waiting.form)
    × ((shown : View) × (view "dtm-system" false after ≡ some shown)
        × (shown.error ≡ some ("Error: " <> error_message unusable refusal))
        × (shown.submit_disabled ≡ false))
    × (click_submit "dtm-system" false after ≡ (sent.0, some creation))
settled-refused_example =
    settled-refused "dtm-system" false waiting creation no_query "failed" unusable (answer 500)
      signed_in refusal refl refl waiting_sent refl refl refl

abbrev focused : Focus
focused = record { modal = record ready { is_open = true }; is_open = true; search = "kube" }

press-Escape_example :
    (((press "Backspace" focused).modal.is_open ≡ false) ↔ ◌≡◌ {A = String} "Backspace" "Escape")
    × ((press "Escape" focused).is_open ≡ false)
    × ((press "Escape" focused).modal.form ≡ PolicyForm.initial)
press-Escape_example = press-Escape "Backspace" focused refl

abbrev running : Page
running = (click_run "dtm" "nightly" fresh).0

-- A scan is started, and the button of another one is clicked while it waits; then the page is left, and a
-- scan is started from the page that comes next.
Reach-IsOneEach_example :
    IsOneEach (click_run "dtm" "weekly" fresh).0 (add_call (click_run "dtm" "weekly" fresh).1 []) []
    × (length (
          add_call
            (click_run "dtm" "weekly" running).1
            (add_call (click_run "dtm" "nightly" fresh).1 [])
          ++ ([] ++ []))
        ≤ 1 + 1)
Reach-IsOneEach_example = Reach-IsOneEach (
    Answers.runs "dtm" "weekly"
      (Answers.returns (Answers.runs "dtm" "weekly" (Answers.runs "dtm" "nightly" Answers.here))))
