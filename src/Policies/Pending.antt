-- ===== src/Policies/Pending.antt =====
-- ui/src/pages/Policies.tsx, the list of policies while its calls are in flight, and its dialog
-- `DeletePolicyModal`. `running` and `deleting` are `isPending` of the two mutations. The name in the
-- question is there while the dialog is open.
pub mod Answers
use mathlib.Core.Option.{Option, none, some}
use drop_the_mic.Base.{String, Bool, true, false, if◌then◌else◌}
use drop_the_mic.Client.{Result, ok, err}
use drop_the_mic.Client.Endpoints.{Endpoint}
use drop_the_mic.Policies.{State, initial, Action, confirm_delete, run, act, Toast, run_settled}

pub record Page : Type 0 where
  pub state : State
  pub running : Bool
  pub deleting : Bool

abbrev pub fresh : Page
fresh = record { state = initial; running = false; deleting = false }

-- The button `Run` of a row.
unfoldable pub click_run : (namespace name : String) → Page → Page × Option Endpoint
unfolding act
click_run namespace name p =
    if p.running
    then (p, none)
    else (record p { running = true }, (act p.state (run namespace name)).1)

abbrev pub confirmed : Page → State × Option Endpoint → Page × Option Endpoint
confirmed p (st, none) = (record p { state = st }, none)
confirmed p (st, some call) = (record p { state = st; deleting = true }, some call)

-- The button of the dialog.
unfoldable pub click_delete : Page → Page × Option Endpoint
click_delete p = if p.deleting then (p, none) else confirmed p (act p.state confirm_delete)

-- What an answer does: the page, the toast, and whether the list is asked for again.
pub record Answered : Type 0 where
  pub page : Page
  pub toast : Option Toast
  pub invalidates : Bool

abbrev pub is_success : Result → Bool
is_success (ok value) = true
is_success (err message) = false

unfoldable pub run_answered : (name : String) → Result → Page → Answered
unfolding run_settled
run_answered name result p = record {
  page = record p { running = false };
  toast = some (run_settled name result);
  invalidates = is_success result;
}

unfoldable pub delete_answered : Result → Page → Answered
delete_answered result p = record {
  page = record p { deleting = false };
  toast = none;
  invalidates = is_success result;
}

pub record Dialog : Type 0 where
  pub title : String
  pub question_name : String
  pub confirm : String
  pub confirm_disabled : Bool

-- `none`: it is closed.
unfoldable pub dialog : Page → Option Dialog
dialog p = elim p.state.delete_target [
  | none ↦ none
  | some (namespace, name) ↦ some (record {
    title = "Delete Policy";
    question_name = name;
    confirm = if p.deleting then "Deleting..." else "Delete Policy";
    confirm_disabled = p.deleting;
  })
]
