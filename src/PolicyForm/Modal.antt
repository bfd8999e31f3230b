-- ===== src/PolicyForm/Modal.antt =====
-- ui/src/pages/Policies.tsx, `PolicyFormModal` while it is used: its inputs, the call that it has in
-- flight, and what it shows. The list has one for a new policy, the detail one for its policy, so `is_edit`
-- does not change while the form stands; one that was left is `closed` when it stands again. `status` is that of the mutation, which @tanstack/react-query
-- keeps until the next call. The YAML text of the preview is left to the preview's value.
pub mod Session
pub mod Errors
pub mod Keys
pub mod Success
use mathlib.Core.Option.{Option, none, some}
use drop_the_mic.Base.{
  ℕ, ◌≤◌, String, Bool, true, false, not, ◌||◌, List, [], ◌∷◌, length, if◌then◌else◌, leb, ◌==◌,
}
use drop_the_mic.Base.Text.{◌<>◌, truthy, trim}
use drop_the_mic.Base.Text.Decimal.{decimal}
use drop_the_mic.Client.{Result, ok, err}
use drop_the_mic.Client.Endpoints.{Endpoint}
use drop_the_mic.Api.{CheckItem}
use drop_the_mic.PolicyForm.{
  Form, Preview, initial, reset_form, build_cr, handle_submit, add_check, remove_check,
  update_check, CheckField,
}

pub data Status : Type 0 where
  idle pending success : Status
  error : (message : String) → Status

pub record State : Type 0 where
  pub is_open : Bool
  pub form : Form
  pub status : Status

abbrev pub closed : State
closed = record { is_open = false; form = initial; status = idle }

-- The inputs. That of the name, and the combobox of the namespace, are disabled while editing.
pub data Input : Type 0 where
  name provider model secret_name full_scan failed_rescan : String → Input
  namespace target_namespaces : List String → Input
  add : Input
  remove : ℕ → Input
  update : ℕ → CheckField → String → Input
  toggle_preview : Input

-- `v[0] || ''`
abbrev pub first_or_empty : List String → String
first_or_empty [] = ""
first_or_empty (v ∷ rest) = v

unfoldable pub typed : Input → Form → Form
typed (name s) f = record f { name = s }
typed (provider s) f = record f { provider = s }
typed (model s) f = record f { model = s }
typed (secret_name s) f = record f { secret_name = s }
typed (full_scan s) f = record f { full_scan = s }
typed (failed_rescan s) f = record f { failed_rescan = s }
typed (namespace v) f = record f { namespace = first_or_empty v }
typed (target_namespaces v) f = record f { target_ns_list = v }
typed add f = record f { checks = add_check f.checks }
typed (remove idx) f = record f { checks = remove_check idx f.checks }
typed (update idx field value) f = record f { checks = update_check idx field value f.checks }
typed toggle_preview f = record f { show_preview = not f.show_preview }

-- `handleClose`
unfoldable pub handle_close : State → State
handle_close st = record st { form = reset_form st.form; is_open = false }

abbrev pub is_pending : Status → Bool
is_pending pending = true
is_pending _ = false

unfoldable pub submit_disabled : State → Bool
submit_disabled st = is_pending st.status || not (truthy (trim st.form.name))

abbrev pub start : State → Option Endpoint → State × Option Endpoint
start st none = (st, none)
start st (some call) = (record st { status = pending }, some call)

-- A click on the button: the state and the call that is started.
unfoldable pub click_submit :
    (default_ns : String) → (is_edit : Bool) → State → State × Option Endpoint
unfolding submit_disabled
click_submit default_ns is_edit st =
    if submit_disabled st then (st, none) else start st (handle_submit default_ns is_edit st.form)

-- The answer: the state and the toast.
unfoldable pub settled : (is_edit : Bool) → Result → State → State × Option String
unfolding handle_close
settled is_edit (ok value) st = (
  record (handle_close st) { status = success },
  some (if is_edit then "Policy updated" else "Policy created"),
)
settled is_edit (err message) st = (record st { status = error message }, none)

-- The answer to a call of a form that was left, for the form that stands now: a success calls `onClose`,
-- which closes the latter where both belong to one page; what is typed in it stays.
unfoldable pub settled_left : (is_same_page : Bool) → Result → State → State
settled_left true (ok value) st = record st { is_open = false }
settled_left true (err message) st = st
settled_left false result st = st

abbrev pub error_text : Status → Option String
error_text (error message) = some ("Error: " <> message)
error_text _ = none

pub record View : Type 0 where
  pub title : String
  pub checks : String
  pub remove_disabled : Bool
  pub preview_button : String
  pub preview : Option Preview
  pub error : Option String
  pub submit : String
  pub submit_disabled : Bool

-- `none`: the modal is closed.
unfoldable pub view : (default_ns : String) → (is_edit : Bool) → State → Option View
view default_ns is_edit st =
    if st.is_open
    then some (record {
      title = if is_edit then "Edit Policy" else "Create Policy";
      checks = "Checks (" <> decimal (length st.form.checks) <> ")";
      remove_disabled = leb (length st.form.checks) 1;
      preview_button = if st.form.show_preview then "▲ Hide YAML Preview" else "▼ Preview YAML";
      preview = if st.form.show_preview then some (build_cr default_ns st.form) else none;
      error = error_text st.status;
      submit =
          if is_pending st.status
          then if is_edit then "Saving..." else "Creating..."
          else if is_edit
          then "Save Changes"
          else "Create Policy";
      submit_disabled = submit_disabled st;
    })
    else none
